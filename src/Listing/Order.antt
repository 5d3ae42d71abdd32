-- ===== src/Listing/Order.antt =====
-- The order of a listing: what `sort_items` makes of entries with different keys
-- (internal/handlers/bucket.go).
use byte_bucket.Prelude.{
  ℕ, Bool, true, false, ◌&&◌, List, [], ◌∷◌, ◌==◌, nat_equality, list_equality, if◌then◌else◌, ltb,
  ◌≡◌, refl, arith, Bool-cases, inl, inr,
}
use byte_bucket.Bytes.{Bytes}
use byte_bucket.Listing.{text_le, EmitItem, insert_item, sort_items}
use byte_bucket.Listing.Paging.{AllAfter, Ascending}

lt_step :
    (x y z : ℕ) (p q r : Bool)
    → (if y == x then p else ltb y x) ≡ false
    → (if z == y then q else ltb z y) ≡ false
    → (p ≡ false → q ≡ false → r ≡ false)
    → (if z == x then r else ltb z x) ≡ false
lt_step x y z p q r h k next = ground arith

-- Coming after is transitive.
pub text_lt_trans :
    (a b c : Bytes) → text_le b a ≡ false → text_le c b ≡ false → text_le c a ≡ false
unfolding text_le
text_lt_trans a [] c h k = cc h
text_lt_trans a (y ∷ b) [] h k = cc k
text_lt_trans [] (y ∷ b) (z ∷ c) h k = refl
text_lt_trans (x ∷ a) (y ∷ b) (z ∷ c) h k =
    lt_step x y z (text_le b a) (text_le c b) (text_le c a) h k (text_lt_trans a b c)

strict_step :
    (x y : ℕ) (p q e : Bool)
    → (if x == y then p else ltb x y) ≡ true
    → (if y == x then e else false) ≡ false
    → (p ≡ true → e ≡ false → q ≡ false)
    → (if y == x then q else ltb y x) ≡ false
strict_step x y p q e h k next = ground arith

both : (p q : Bool) → (p && q) ≡ false → (if p then q else false) ≡ false
both true q h = h
both false q h = refl

head_eq :
    (x y : ℕ) (a b : Bytes)
    → ((y ∷ b) == (x ∷ a)) ≡ false
    → (if y == x then b == a else false) ≡ false
head_eq x y a b h = both (y == x) (b == a) h

-- A text at or before another one is before it, or they are the same.
text_le_strict : (a b : Bytes) → text_le a b ≡ true → (b == a) ≡ false → text_le b a ≡ false
unfolding text_le
text_le_strict [] [] h k = cc k
text_le_strict [] (y ∷ b) h k = refl
text_le_strict (x ∷ a) [] h k = cc h
text_le_strict (x ∷ a) (y ∷ b) h k =
    strict_step x y (text_le a b) (text_le b a) (b == a) h (head_eq x y a b k) (text_le_strict a b)

-- No entry has this key.
abbrev pub Absent : Bytes → List EmitItem → Type 0
Absent k [] = Unit
Absent k (i ∷ is) = ((i.key == k) ≡ false) × Absent k is

abbrev pub AllDistinct : List EmitItem → Type 0
AllDistinct [] = Unit
AllDistinct (i ∷ is) = Absent i.key is × AllDistinct is

Absent-insert_item :
    (k : Bytes) (i : EmitItem) (is : List EmitItem)
    → (i.key == k) ≡ false
    → Absent k is
    → Absent k (insert_item i is)
unfolding insert_item
Absent-insert_item k i [] h a = (h, tt)
Absent-insert_item k i (j ∷ rest) h a = elim (Bool-cases (text_le i.key j.key)) [
  | inl before ↦ rw before (h, a)
  | inr after ↦ rw after (a.0, Absent-insert_item k i rest h a.1)
]

pub Absent-sort_items : (k : Bytes) (is : List EmitItem) → Absent k is → Absent k (sort_items is)
unfolding sort_items
Absent-sort_items k [] a = tt
Absent-sort_items k (i ∷ is) a =
    Absent-insert_item k i (sort_items is) a.0 (Absent-sort_items k is a.1)

pub AllAfter-trans :
    (k l : Bytes) (is : List EmitItem) → text_le l k ≡ false → AllAfter l is → AllAfter k is
AllAfter-trans k l [] h a = tt
AllAfter-trans k l (i ∷ is) h a = (text_lt_trans k l i.key h a.0, AllAfter-trans k l is h a.1)

AllAfter-insert_item :
    (k : Bytes) (i : EmitItem) (is : List EmitItem)
    → text_le i.key k ≡ false
    → AllAfter k is
    → AllAfter k (insert_item i is)
unfolding insert_item
AllAfter-insert_item k i [] h a = (h, tt)
AllAfter-insert_item k i (j ∷ rest) h a = elim (Bool-cases (text_le i.key j.key)) [
  | inl before ↦ rw before (h, a)
  | inr after ↦ rw after (a.0, AllAfter-insert_item k i rest h a.1)
]

insert_item-Ascending :
    (i : EmitItem) (is : List EmitItem)
    → Absent i.key is
    → Ascending is
    → Ascending (insert_item i is)
unfolding insert_item
insert_item-Ascending i [] a s = (tt, tt)
insert_item-Ascending i (j ∷ rest) a s = elim (Bool-cases (text_le i.key j.key)) [
  | inl before ↦
      let later = text_le_strict i.key j.key before a.0 in
      rw before ((later, AllAfter-trans i.key j.key rest later s.0), s)
  | inr after ↦
      rw after (AllAfter-insert_item j.key i rest after s.0, insert_item-Ascending i rest a.1 s.1)
]

-- Entries with different keys are sorted strictly.
pub sort_items-Ascending : (is : List EmitItem) → AllDistinct is → Ascending (sort_items is)
unfolding sort_items
sort_items-Ascending [] d = tt
sort_items-Ascending (i ∷ is) d =
    insert_item-Ascending i (sort_items is) (Absent-sort_items i.key is d.0)
      (sort_items-Ascending is d.1)
