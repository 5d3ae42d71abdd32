-- ===== src/BodyLimit.antt =====
-- The cap on request bodies of internal/middleware/body_limit.go. A handler is the list of what it
-- does with the request's body and the response; `http.MaxBytesReader` decides how each read ends.
mod Silenced
mod Tests
use byte_bucket.Prelude.{
  ℕ, zero, suc, Bool, true, false, not, List, [], ◌∷◌, ◌++◌, Option, none, some, ◌==◌, nat_equality,
  list_equality, if◌then◌else◌,
}
use byte_bucket.Prelude.Int.{ℤ, pos, negsuc}
use byte_bucket.Bytes.{Bytes, bytes, has_prefix}

-- What reaches the client: the first status counts, and a body without one has status 200.
pub record Wire : Type 0 where
  pub status : Option ℕ
  pub content_type : Bytes
  pub sent : Bytes

abbrev pub commit : ℕ → Option ℕ → Option ℕ
commit code none = some code
commit code (some first) = some first

-- Headers are sent with the status: a content type that is set later has no effect.
abbrev pub set_type : Bytes → Wire → Option ℕ → Wire
set_type t w none = record w { content_type = t }
set_type t w (some code) = w

-- A write to the response itself.
abbrev pub put : Bytes → Wire → Wire
put p w = record w { status = commit 200 w.status; sent = w.sent ++ p }

pub record SilencableWriter : Type 0 where
  pub wire : Wire
  pub silenced : Bool

-- How a read ends.
pub data ReadEnd : Type 0 where
  more over_limit other_error : ReadEnd

pub record LimitedBody : Type 0 where
  pub sw : SilencableWriter
  pub triggered : Bool

-- `WriteHeader`
unfoldable pub write_header : ℕ → SilencableWriter → SilencableWriter
write_header code w =
    if w.silenced
    then w
    else record w { wire = record w.wire { status = commit code w.wire.status } }

-- `Write`
unfoldable pub write : Bytes → SilencableWriter → SilencableWriter
write p w = if w.silenced then w else record w { wire = put p w.wire }

-- `Header().Set("Content-Type", _)`, which is not silenced
unfoldable pub set_content_type : Bytes → SilencableWriter → SilencableWriter
set_content_type t w = record w { wire = set_type t w.wire w.wire.status }

-- What decides about the error's format, and the encoders of its body.
pub record Caller : Type 0 where
  pub path : Bytes
  pub accepts_json : Bool
  pub json_error : Bytes
  pub xml_error : Bytes

unfoldable pub prefers_json : Caller → Bool
prefers_json c = if has_prefix c.path (bytes "/api") then true else c.accepts_json

-- The encoder writes to the response without asking whether it is silenced.
unfoldable pub write_error : Bytes → Bytes → SilencableWriter → SilencableWriter
unfolding write_header set_content_type
write_error content_type body sw =
    let headed = write_header 413 (set_content_type content_type sw) in
    record headed { wire = put body headed.wire }

unfoldable pub write_entity_too_large : Caller → SilencableWriter → SilencableWriter
unfolding write_error prefers_json
write_entity_too_large c sw =
    let out =
      if prefers_json c
      then write_error (bytes "application/json") c.json_error sw
      else write_error (bytes "application/xml") c.xml_error sw in
    record out { silenced = true }

-- `limitedBody.Read`
unfoldable pub read : Caller → ReadEnd → LimitedBody → LimitedBody
unfolding write_entity_too_large
read c more b = b
read c other_error b = b
read c over_limit b =
    if b.triggered then b else record b { triggered = true; sw = write_entity_too_large c b.sw }

-- What a handler does.
pub data Action : Type 0 where
  reads : ReadEnd → Action
  writes_header : ℕ → Action
  writes sets_type : Bytes → Action

unfoldable pub act : Caller → Action → LimitedBody → LimitedBody
unfolding read write_header write set_content_type
act c (reads e) b = read c e b
act c (writes_header code) b = record b { sw = write_header code b.sw }
act c (writes p) b = record b { sw = write p b.sw }
act c (sets_type t) b = record b { sw = set_content_type t b.sw }

unfoldable pub serve : Caller → List Action → LimitedBody → LimitedBody
unfolding act
serve c [] b = b
serve c (a ∷ actions) b = serve c actions (act c a b)

abbrev pub fresh : Wire
fresh = record { status = none; content_type = []; sent = [] }

abbrev pub wrap : Wire → LimitedBody
wrap w = record { sw = record { wire = w; silenced = false }; triggered = false }

-- The handler without the cap.
unfoldable pub plain_act : Action → Wire → Wire
plain_act (reads e) w = w
plain_act (writes_header code) w = record w { status = commit code w.status }
plain_act (writes p) w = put p w
plain_act (sets_type t) w = set_type t w w.status

unfoldable pub plain : List Action → Wire → Wire
unfolding plain_act
plain [] w = w
plain (a ∷ actions) w = plain actions (plain_act a w)

-- `BodyLimit`, for a request with a body or without
unfoldable pub body_limit : ℤ → Bool → Caller → List Action → Wire → Wire
unfolding serve plain
body_limit (pos zero) has_body c actions w = plain actions w
body_limit (negsuc n) has_body c actions w = plain actions w
body_limit (pos (suc n)) has_body c actions w =
    if not has_body then plain actions w else (serve c actions (wrap w)).sw.wire
