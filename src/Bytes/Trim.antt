-- ===== src/Bytes/Trim.antt =====
-- Trimming, splitting and cutting leave a text alone that has none of the bytes they look for.
use byte_bucket.Prelude.{ℕ, Bool, true, false, [], ◌∷◌, ◌++◌, ◌==◌, nat_equality, ◌≡◌, refl, ap}
use byte_bucket.Bytes.{Bytes, trim_space, trim_left, is_space, split, cons_head}
use mathlib.Core.List.{reverse, reverse-cons, reverse-reverse}

abbrev pub AllBytes : (ℕ → Bool) → Bytes → Type 0
AllBytes ok [] = Unit
AllBytes ok (c ∷ s) = (ok c ≡ true) × AllBytes ok s

module _ (ok : ℕ → Bool) where
  AllBytes-append : (s t : Bytes) → AllBytes ok s → AllBytes ok t → AllBytes ok (s ++ t)
  AllBytes-append [] t r q = q
  AllBytes-append (c ∷ s) t r q = (r.0, AllBytes-append s t r.1 q)

  AllBytes-reverse : (s : Bytes) → AllBytes ok s → AllBytes ok (reverse s)
  AllBytes-reverse [] r = tt
  AllBytes-reverse (c ∷ s) r =
      rw (reverse-cons c s)
        (AllBytes-append (reverse s) (c ∷ []) (AllBytes-reverse s r.1) (r.0, tt))

  trim_left-id :
      ((c : ℕ) → ok c ≡ true → is_space c ≡ false) → (s : Bytes) → AllBytes ok s → trim_left s ≡ s
  unfolding trim_left
  trim_left-id no_space [] r = refl
  trim_left-id no_space (c ∷ s) r = rw (no_space c r.0) refl

  pub trim_space-id :
      ((c : ℕ) → ok c ≡ true → is_space c ≡ false) → (s : Bytes) → AllBytes ok s → trim_space s ≡ s
  unfolding trim_space
  trim_space-id no_space s r =
      rw (trim_left-id no_space s r)
        (rw (trim_left-id no_space (reverse s) (AllBytes-reverse s r)) (reverse-reverse s))

  pub split_one :
      (sep : ℕ)
      → ((c : ℕ) → ok c ≡ true → (c == sep) ≡ false)
      → (s : Bytes) → AllBytes ok s
      → split sep s ≡ s ∷ []
  unfolding split
  split_one sep none_here [] r = refl
  split_one sep none_here (c ∷ s) r =
      rw (none_here c r.0) (ap (cons_head c) (split_one sep none_here s r.1))
