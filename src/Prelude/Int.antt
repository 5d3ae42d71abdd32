-- ===== src/Prelude/Int.antt =====
-- Go's `int` where a value may be negative: operator input before it is validated.
use Prim.Native.Nat.{ℕ}
use mathlib.Core.Bool.{Bool, true, false, ◌&&◌}
use byte_bucket.Prelude.Tests.{leb}

-- `negsuc n` is -(n + 1).
pub data ℤ : Type 0 where
  pos : ℕ → ℤ
  negsuc : ℕ → ℤ

-- A count or a duration as the program uses it; what is negative counts as 0.
abbrev pub to_ℕ : ℤ → ℕ
to_ℕ (pos n) = n
to_ℕ (negsuc n) = 0

-- `v >= lo && v <= hi` for bounds that are not negative.
abbrev pub within : ℤ → ℕ → ℕ → Bool
within (pos n) lo hi = leb lo n && leb n hi
within (negsuc n) lo hi = false

-- `a <= b`
abbrev pub lte : ℤ → ℤ → Bool
lte (pos a) (pos b) = leb a b
lte (pos a) (negsuc b) = false
lte (negsuc a) (pos b) = true
lte (negsuc a) (negsuc b) = leb b a
