-- ===== src/Bytes/Digits/Laws.antt =====
-- The digits of bytes read back (encoding/hex).
use byte_bucket.Prelude.{
  ℕ, zero, suc, Bool-cases, inl, inr, ◌+◌, ◌/◌, ◌%◌, ◌*◌, ◌<◌, false, List, [], ◌∷◌, some, ltb,
  ◌==◌, nat_equality, list_equality, ◌≡◌, refl, ap, arith,
}
use byte_bucket.Bytes.{Bytes}
use byte_bucket.Bytes.Digits.{hex, hex_digit, unhex, from_hex_digit, decimal, decimal_from}

abbrev pub AllBelow : List ℕ → Type 0
AllBelow [] = Unit
AllBelow (b ∷ s) = (b < 256) × AllBelow s

from-hex_digit : (n : ℕ) → n < 16 → from_hex_digit (hex_digit n) ≡ some n
unfolding from_hex_digit hex_digit
from-hex_digit n h = ground arith

byte_eq : (b : ℕ) → b < 256 → b / 16 * 16 + b % 16 ≡ b
byte_eq b h = omega arith

pub unhex-hex : (s : Bytes) → AllBelow s → unhex (hex s) ≡ some s
unfolding unhex hex
unhex-hex [] h = refl
unhex-hex (b ∷ s) h = rw (from-hex_digit (b / 16) (omega arith)) (
    rw (from-hex_digit (b % 16) (omega arith))
      (rw (unhex-hex s h.1) (ap (λ (c : ℕ). some (c ∷ s)) (byte_eq b h.0))))

decimal_from-ne_nil : (fuel n : ℕ) (after : Bytes) → (decimal_from fuel n after == []) ≡ false
unfolding decimal_from
decimal_from-ne_nil zero n after = refl
decimal_from-ne_nil (suc fuel) n after = elim (Bool-cases (ltb n 10)) [
  | inl last ↦ rw last refl
  | inr more ↦ rw more (decimal_from-ne_nil fuel (n / 10) ((b'0' + n % 10) ∷ after))
]

pub decimal-ne_nil : (n : ℕ) → (decimal n == []) ≡ false
unfolding decimal
decimal-ne_nil n = decimal_from-ne_nil n n []
