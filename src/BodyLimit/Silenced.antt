-- ===== src/BodyLimit/Silenced.antt =====
-- What a client receives when a body is too large, and when it is not
-- (internal/middleware/body_limit.go).
use byte_bucket.Prelude.{
  ℕ, zero, suc, Bool, true, false, List, [], ◌∷◌, ◌++◌, none, some, if◌then◌else◌, ◌≡◌, ◌≢◌, refl,
  ap, ◌∙◌, Bool-cases, inl, inr, nat_equality, list_equality,
}
use byte_bucket.Prelude.Int.{ℤ, pos, negsuc}
use byte_bucket.Bytes.{Bytes, bytes}
use byte_bucket.BodyLimit.{
  Wire, commit, set_type, put, more, over_limit, other_error, LimitedBody, write_header, write,
  set_content_type, Caller, prefers_json, write_error, write_entity_too_large, read, Action, reads,
  writes_header, writes, sets_type, act, serve, fresh, wrap, plain_act, plain, body_limit,
}

-- No read finds the body too large.
abbrev pub AllWithin : List Action → Type 0
AllWithin [] = Unit
AllWithin (reads more ∷ actions) = AllWithin actions
AllWithin (reads other_error ∷ actions) = AllWithin actions
AllWithin (reads over_limit ∷ actions) = ⊥
AllWithin (writes_header code ∷ actions) = AllWithin actions
AllWithin (writes p ∷ actions) = AllWithin actions
AllWithin (sets_type t ∷ actions) = AllWithin actions

serve-wrap :
    (c : Caller) (actions : List Action) (w : Wire)
    → AllWithin actions
    → serve c actions (wrap w) ≡ wrap (plain actions w)
unfolding serve act plain plain_act read write_header write set_content_type
serve-wrap c [] w h = refl
serve-wrap c (reads more ∷ actions) w h = serve-wrap c actions w h
serve-wrap c (reads other_error ∷ actions) w h = serve-wrap c actions w h
serve-wrap c (reads over_limit ∷ actions) w h = absurd h
serve-wrap c (writes_header code ∷ actions) w h =
    serve-wrap c actions (record w { status = commit code w.status }) h
serve-wrap c (writes p ∷ actions) w h = serve-wrap c actions (put p w) h
serve-wrap c (sets_type t ∷ actions) w h = serve-wrap c actions (set_type t w w.status) h

serve-append :
    (c : Caller) (before after : List Action) (b : LimitedBody)
    → serve c (before ++ after) b ≡ serve c after (serve c before b)
unfolding serve
serve-append c [] after b = refl
serve-append c (a ∷ before) after b = serve-append c before after (act c a b)

abbrev closed : ℕ → Bytes → Bytes → LimitedBody
closed code t s = record {
  sw = record { wire = record { status = some code; content_type = t; sent = s }; silenced = true };
  triggered = true;
}

-- Once the error is out, nothing that the handler does reaches the client.
serve-closed :
    (c : Caller) (actions : List Action) (code : ℕ) (t s : Bytes)
    → serve c actions (closed code t s) ≡ closed code t s
unfolding serve act read write_header write set_content_type
serve-closed c [] code t s = refl
serve-closed c (reads more ∷ actions) code t s = serve-closed c actions code t s
serve-closed c (reads other_error ∷ actions) code t s = serve-closed c actions code t s
serve-closed c (reads over_limit ∷ actions) code t s = serve-closed c actions code t s
serve-closed c (writes_header k ∷ actions) code t s = serve-closed c actions code t s
serve-closed c (writes p ∷ actions) code t s = serve-closed c actions code t s
serve-closed c (sets_type k ∷ actions) code t s = serve-closed c actions code t s

keeps_status :
    (a : Action) (w : Wire) (code : ℕ) → w.status ≡ some code → (plain_act a w).status ≡ some code
unfolding plain_act
keeps_status (reads e) w code h = h
keeps_status (writes_header k) w code h = ap (commit k) h
keeps_status (writes p) w code h = ap (commit 200) h
keeps_status (sets_type t) w code h = ap (λ o. (set_type t w o).status) h ∙ h

committed :
    (actions : List Action) (w : Wire) (code : ℕ)
    → w.status ≡ some code
    → (plain actions w).status ≢ none
unfolding plain
committed [] w code h = λ e. cc (h, e)
committed (a ∷ actions) w code h = committed actions (plain_act a w) code (keeps_status a w code h)

-- Nothing is sent before the status.
some_or_sent :
    (actions : List Action) (t : Bytes)
    → (plain actions (record { status = none; content_type = t; sent = [] })).status ≡ none
    → (plain actions (record { status = none; content_type = t; sent = [] })).sent ≡ []
unfolding plain plain_act
some_or_sent [] t h = refl
some_or_sent (reads e ∷ actions) t h = some_or_sent actions t h
some_or_sent (writes_header code ∷ actions) t h = absurd (committed actions _ code refl h)
some_or_sent (writes p ∷ actions) t h = absurd (committed actions _ 200 refl h)
some_or_sent (sets_type k ∷ actions) t h = some_or_sent actions k h

-- The 413 in the caller's format.
abbrev pub too_large : Caller → Wire
too_large c =
    if prefers_json c
    then record { status = some 413; content_type = bytes "application/json"; sent = c.json_error }
    else record { status = some 413; content_type = bytes "application/xml"; sent = c.xml_error }

wire_eta :
    (w : Wire)
    → w.status ≡ none
    → w.sent ≡ []
    → w ≡ record { status = none; content_type = w.content_type; sent = [] }
wire_eta w h k = rw (h, k) refl

read-over_limit :
    (c : Caller) (t : Bytes)
    → read c over_limit (wrap (record { status = none; content_type = t; sent = [] }))
      ≡ record { sw = record { wire = too_large c; silenced = true }; triggered = true }
unfolding read write_entity_too_large write_error write_header set_content_type
read-over_limit c t = elim (Bool-cases (prefers_json c)) [
  | inl json ↦ rw json refl
  | inr xml ↦ rw xml refl
]

serve-too_large :
    (c : Caller) (actions : List Action)
    → serve c actions
        (record { sw = record { wire = too_large c; silenced = true }; triggered = true })
      ≡ record { sw = record { wire = too_large c; silenced = true }; triggered = true }
serve-too_large c actions = elim (Bool-cases (prefers_json c)) [
  | inl json ↦ rw json (serve-closed c actions 413 (bytes "application/json") c.json_error)
  | inr xml ↦ rw xml (serve-closed c actions 413 (bytes "application/xml") c.xml_error)
]

-- A handler that finds the body within the limit answers as it would without the cap.
pub body_limit-plain :
    (max_bytes : ℤ) (has_body : Bool) (c : Caller) (actions : List Action) (w : Wire)
    → AllWithin actions
    → body_limit max_bytes has_body c actions w ≡ plain actions w
unfolding body_limit
body_limit-plain (pos zero) has_body c actions w h = refl
body_limit-plain (negsuc n) has_body c actions w h = refl
body_limit-plain (pos (suc n)) false c actions w h = refl
body_limit-plain (pos (suc n)) true c actions w h =
    ap (λ (b : LimitedBody). b.sw.wire) (serve-wrap c actions w h)

-- A handler that has sent nothing yet when a read finds the body too large: the client receives the
-- 413 in its format and nothing else, whatever the handler does afterwards, its own error response
-- and further reads included.
pub body_limit-over_limit :
    (n : ℕ) (c : Caller) (before after : List Action)
    → AllWithin before
    → (plain before fresh).status ≡ none
    → body_limit (pos (suc n)) true c (before ++ (reads over_limit ∷ after)) fresh ≡ too_large c
unfolding body_limit serve act
body_limit-over_limit n c before after within silent =
    let w = plain before fresh in
    let e : w ≡ record { status = none; content_type = w.content_type; sent = [] } =
      wire_eta w silent (some_or_sent before [] silent) in
    ap (λ (b : LimitedBody). b.sw.wire)
      (serve-append c before (reads over_limit ∷ after) (wrap fresh)
        ∙ ap (λ (b : LimitedBody). serve c after (read c over_limit b))
            (serve-wrap c before fresh within ∙ ap wrap e)
        ∙ ap (serve c after) (read-over_limit c w.content_type)
        ∙ serve-too_large c after)
