-- ===== src/ClientIp/Forging.antt =====
-- A client cannot choose the address that it is counted under (internal/middleware/clientip.go).
use byte_bucket.Prelude.{false, List, [], ◌∷◌, ◌==◌, nat_equality, list_equality, ◌≡◌}
use byte_bucket.Bytes.{Bytes}

abbrev pub NoComma : Bytes → Type 0
NoComma [] = Unit
NoComma (c ∷ s) = ((c == b',') ≡ false) × NoComma s
