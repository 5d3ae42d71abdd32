-- ===== src/Prelude/Classes.antt =====
-- Types with a Boolean equality test, as instance arguments: the keys of tables, and bytes.
use Prim.Native.Nat.{ℕ}
use Prim.Native.String.{String}
use mathlib.Core.Bool.{Bool, true, false, ◌&&◌}
use mathlib.Core.List.{List, [], ◌∷◌}
use mathlib.Core.Logic.{◌↔◌}
use mathlib.Core.Path.{◌≡◌, refl, subst}
use native.Mathlib.Omega.{arith}
use text.Mathlib.Text
use text.Mathlib.TextEquality
use byte_bucket.Prelude.Tests.{nat_beq, nat_beq_iff}

pub record Equality {ℓ} (A : Type ℓ) : Type ℓ where
  pub test : A → A → Bool
  pub test_iff : (x y : A) → (test x y ≡ true) ↔ (x ≡ y)

abbrev pub list_test {ℓ} : {A : Type ℓ} → (A → A → Bool) → List A → List A → Bool
list_test eq [] [] = true
list_test eq (x ∷ xs) (y ∷ ys) = eq x y && list_test eq xs ys
list_test eq _ _ = false

module _ {ℓ} {A : Type ℓ} ⦃q : Equality A⦄ where
  pub list_test→eq : (xs ys : List A) → list_test q.test xs ys ≡ true → xs ≡ ys
  list_test→eq [] [] h = refl
  list_test→eq [] (y ∷ ys) h = ground arith
  list_test→eq (x ∷ xs) [] h = ground arith
  list_test→eq (x ∷ xs) (y ∷ ys) h = ground (arith, q.test_iff x y, list_test→eq xs ys)

  pub list_test_refl : (xs : List A) → list_test q.test xs xs ≡ true
  list_test_refl [] = refl
  list_test_refl (x ∷ xs) = ground (arith, q.test_iff x x, list_test_refl xs)

  pub list_test_iff : (xs ys : List A) → (list_test q.test xs ys ≡ true) ↔ (xs ≡ ys)
  list_test_iff xs ys =
      (list_test→eq xs ys, λ p. subst (λ zs. list_test q.test xs zs ≡ true) p (list_test_refl xs))

infix 50 ◌==◌
abbrev pub ◌==◌ {ℓ} : {A : Type ℓ} ⦃q : Equality A⦄ → A → A → Bool
◌==◌ ⦃q⦄ x y = q.test x y

pub ==_refl {ℓ} : {A : Type ℓ} ⦃q : Equality A⦄ (x : A) → (x == x) ≡ true
==_refl ⦃q⦄ x = (q.test_iff x x).1 refl

instance abbrev pub list_equality {ℓ} : {A : Type ℓ} ⦃q : Equality A⦄ → Equality (List A)
list_equality ⦃q⦄ = record { test = list_test q.test; test_iff = list_test_iff }

instance abbrev pub string_equality : Equality String
string_equality = record { test = Text.◌==◌; test_iff = TextEquality.eq_iff }

instance abbrev pub nat_equality : Equality ℕ
nat_equality = record { test = nat_beq; test_iff = nat_beq_iff }
