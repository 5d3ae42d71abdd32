-- ===== src/Listing/Paging.antt =====
-- The cursor of a page resumes the listing where the page stopped (internal/handlers/bucket.go).
use byte_bucket.Prelude.{
  ℕ, zero, suc, ◌-◌, ◌≤◌, ◌<◌, Bool, true, false, List, [], ◌∷◌, ◌++◌, ◌==◌, ==_refl, nat_equality,
  list_equality, if◌then◌else◌, ltb, length, take, drop, take-append-drop, length-take, ltb→lt,
  ltb_false→le, ◌≡◌, refl, sym, ap, ◌∙◌, arith, Bool-cases, inl, inr,
}
use byte_bucket.Bytes.{Bytes}
use byte_bucket.Prelude.Int.{pos, negsuc}
use byte_bucket.Range.{Parsed, parsed, err_syntax, err_range, parse_int}
use byte_bucket.Listing.{
  list_page, merged, seek_unless_empty, parse_max_keys, clamp, text_le, EmitItem, seek, key_at,
  cut_page,
}
use mathlib.Core.Bool.{false≢true}

pub text_le_refl : (a : Bytes) → text_le a a ≡ true
unfolding text_le
text_le_refl [] = refl
text_le_refl (x ∷ a) = rw (==_refl x) (text_le_refl a)

one_way :
    (x y : ℕ) (p q : Bool)
    → (if y == x then p else ltb y x) ≡ false
    → (p ≡ false → q ≡ true)
    → (if x == y then q else ltb x y) ≡ true
one_way x y p q h k = ground arith

-- What is not at or before a text comes after it.
pub text_le_total : (a b : Bytes) → text_le b a ≡ false → text_le a b ≡ true
unfolding text_le
text_le_total [] b h = refl
text_le_total (x ∷ a) [] h = absurd (false≢true (sym h))
text_le_total (x ∷ a) (y ∷ b) h = one_way x y (text_le b a) (text_le a b) h (text_le_total a b)

-- Every later key comes after this one.
abbrev pub AllAfter : Bytes → List EmitItem → Type 0
AllAfter k [] = Unit
AllAfter k (i ∷ is) = (text_le i.key k ≡ false) × AllAfter k is

abbrev pub Ascending : List EmitItem → Type 0
Ascending [] = Unit
Ascending (i ∷ is) = AllAfter i.key is × Ascending is

pub AllAfter-key_at :
    (k : Bytes) (n : ℕ) (is : List EmitItem)
    → n < length is
    → AllAfter k is
    → text_le (key_at n is) k ≡ false
unfolding key_at
AllAfter-key_at k n [] h a = absurd (omega arith)
AllAfter-key_at k zero (i ∷ is) h a = a.0
AllAfter-key_at k (suc n) (i ∷ is) h a = AllAfter-key_at k n is (omega arith) a.1

pub seek-AllAfter : (k : Bytes) (is : List EmitItem) → AllAfter k is → seek k is ≡ is
unfolding seek
seek-AllAfter k [] a = refl
seek-AllAfter k (i ∷ is) a = rw a.0 refl

pub seek-key_at :
    (n : ℕ) (is : List EmitItem)
    → n < length is
    → Ascending is
    → seek (key_at n is) is ≡ drop (suc n) is
unfolding seek key_at
seek-key_at n [] h a = absurd (omega arith)
seek-key_at zero (i ∷ is) h a = rw (text_le_refl i.key) (seek-AllAfter i.key is a.0)
seek-key_at (suc n) (i ∷ is) h a =
    rw (text_le_total i.key (key_at n is) (AllAfter-key_at i.key n is (omega arith) a.0))
      (seek-key_at n is (omega arith) a.1)

cut_page-truncated :
    (m : ℕ) (is : List EmitItem)
    → (cut_page m is).truncated ≡ true
    → (ltb m (length is) ≡ true)
      × ((cut_page m is).items ≡ take m is)
      × ((cut_page m is).last_key ≡ key_at (m - 1) is)
unfolding cut_page
cut_page-truncated m is h = elim (Bool-cases (ltb m (length is))) [
  | inl more ↦ rw (more, cut_page) (refl, refl, refl)
  | inr all ↦ absurd (cc (rw (all, cut_page) at h))
]

pred : (m : ℕ) → suc m - 1 ≡ m
pred m = omega arith

-- Over entries in strictly ascending order and for a page of at least one key: a page that was
-- cut short holds as many entries as it may, and it and what the cursor at its last key leaves are
-- all the entries, in their order.
pub seek-cut_page :
    (max_keys : ℕ) (entries : List EmitItem)
    → 1 ≤ max_keys
    → Ascending entries
    → (cut_page max_keys entries).truncated ≡ true
    → ((cut_page max_keys entries).items ++ seek (cut_page max_keys entries).last_key entries
        ≡ entries)
      × (length (cut_page max_keys entries).items ≡ max_keys)
seek-cut_page zero entries low a h = absurd (omega arith)
seek-cut_page (suc m) entries low a h =
    let (more, page, last) = cut_page-truncated (suc m) entries h in
    let fits : suc m < length entries = ltb→lt (suc m) (length entries) more in
    (
      ap (λ (xs : List EmitItem). xs ++ seek (cut_page (suc m) entries).last_key entries) page
          ∙ ap (λ k. take (suc m) entries ++ seek k entries)
              (last ∙ ap (λ n. key_at n entries) (pred m))
          ∙ ap (◌++◌ (take (suc m) entries)) (seek-key_at m entries (omega arith) a)
          ∙ take-append-drop (suc m) entries,
      ap (λ (xs : List EmitItem). length xs) page ∙ omega (arith, length-take (suc m) entries),
    )

clamp-within : (p : Parsed) → (1 ≤ clamp p) × (clamp p ≤ 1000)
unfolding clamp
clamp-within (parsed (pos zero)) = (omega arith, omega arith)
clamp-within (parsed (pos (suc n))) = (ground arith, ground arith)
clamp-within (parsed (negsuc n)) = (omega arith, omega arith)
clamp-within err_syntax = (omega arith, omega arith)
clamp-within err_range = (omega arith, omega arith)

parse_max_keys-within : (raw : Bytes) → (1 ≤ parse_max_keys raw) × (parse_max_keys raw ≤ 1000)
unfolding parse_max_keys
parse_max_keys-within [] = (omega arith, omega arith)
parse_max_keys-within (c ∷ raw) = clamp-within (parse_int (c ∷ raw))

length-cut_page : (m : ℕ) (is : List EmitItem) → length (cut_page m is).items ≤ m
unfolding cut_page
length-cut_page m is = elim (Bool-cases (ltb m (length is))) [
  | inl more ↦ rw (more, cut_page) (omega (arith, length-take m is))
  | inr all ↦ rw (all, cut_page) (ltb_false→le m (length is) all)
]

-- Whatever a client asks for, a page may carry at least one entry and carries at most 1000.
pub length-list_page :
    (prefix delimiter raw start_after : Bytes) (files : List Bytes)
    → (1 ≤ parse_max_keys raw)
      × (length (list_page prefix delimiter (parse_max_keys raw) start_after files).items ≤ 1000)
unfolding list_page
length-list_page prefix delimiter raw start_after files =
    let (low, high) = parse_max_keys-within raw in
    let short =
      length-cut_page (parse_max_keys raw)
        (seek_unless_empty start_after (merged prefix delimiter files)) in
    (low, omega (arith, short, high))
