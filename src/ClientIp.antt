-- ===== src/ClientIp.antt =====
-- The address of a client: internal/middleware/clientip.go, and `remoteAddrIP` and `splitTrim` of
-- internal/middleware/ratelimit.go.
pub mod Forging
mod Tests
use byte_bucket.Prelude.{
  Bool, true, false, not, List, [], ◌∷◌, ◌++◌, Option, none, some, ◌==◌, nat_equality,
  list_equality, if◌then◌else◌,
}
use byte_bucket.Bytes.{Bytes, bytes, split, trim_space}
use mathlib.Core.List.{reverse}

-- A request as these functions read it: `header_values` is `r.Header.Values`.
pub record Request : Type 0 where
  pub header_values : Bytes → List Bytes
  pub remote_addr : Bytes

-- `net.ParseIP` with the text of the address, and the host of `net.SplitHostPort`.
pub record Net : Type 0 where
  pub parse_ip : Bytes → Option Bytes
  pub split_host_port : Bytes → Option Bytes

unfoldable pub trim_all : List Bytes → List Bytes
trim_all [] = []
trim_all (p ∷ ps) =
    let v = trim_space p in let out = trim_all ps in if v == [] then out else v ∷ out

-- `splitTrim`
unfoldable pub split_trim : Bytes → List Bytes
unfolding trim_all
split_trim s = trim_all (split b',' s)

-- `values[len(values)-1]`, for a header that is there
unfoldable pub last_value : Bytes → List Bytes → Bytes
last_value v [] = v
last_value v (w ∷ ws) = last_value w ws

-- `r.Header.Get(name)`
pub first_value : List Bytes → Bytes
first_value [] = []
first_value (v ∷ vs) = v

unfoldable pub first_present : Request → List Bytes → Option Bytes
unfolding first_value
first_present r [] = none
first_present r (h ∷ hs) =
    let later = first_present r hs in
    if first_value (r.header_values h) == [] then later else some h

pub proxy_header_fallbacks : List Bytes
proxy_header_fallbacks =
    bytes "CF-Connecting-IP"
    ∷ bytes "Fly-Client-IP"
    ∷ bytes "True-Client-IP"
    ∷ bytes "X-Real-IP"
    ∷ bytes "X-Forwarded-For"
    ∷ []

-- `DetectProxyHeader`
pub detect_proxy_header : Request → List Bytes → Bytes
unfolding first_present proxy_header_fallbacks
detect_proxy_header r configured = elim (first_present r configured) [
  | some h ↦ h
  | none ↦ elim (first_present r proxy_header_fallbacks) [ some h ↦ h | none ↦ [] ]
]

module _ (net : Net) where
  -- The first valid address of a list.
  unfoldable pub scan : List Bytes → Bytes
  scan [] = []
  scan (p ∷ ps) = let later = scan ps in elim (net.parse_ip p) [ none ↦ later | some ip ↦ ip ]

  -- `pickIP`
  unfoldable pub pick_ip : List Bytes → Bool → Bytes
  unfolding scan
  pick_ip parts use_leftmost = if use_leftmost then scan parts else scan (reverse parts)

  -- `remoteAddrIP`
  unfoldable pub remote_addr_ip : Request → Bytes
  remote_addr_ip r = elim (net.split_host_port r.remote_addr) [
    | none ↦ r.remote_addr
    | some host ↦ host
  ]

  unfoldable pub pick_from : List Bytes → Bool → Bytes
  unfolding pick_ip split_trim last_value
  pick_from [] use_leftmost = []
  pick_from (v ∷ vs) use_leftmost = pick_ip (split_trim (last_value v vs)) use_leftmost

  -- `resolveClientIP`
  unfoldable pub resolve_client_ip : Request → List Bytes → Bool → Bytes
  unfolding pick_from remote_addr_ip
  resolve_client_ip r [] use_leftmost = remote_addr_ip r
  resolve_client_ip r (h ∷ hs) use_leftmost =
      let later = resolve_client_ip r hs use_leftmost in
      let ip = pick_from (r.header_values h) use_leftmost in if ip == [] then later else ip
