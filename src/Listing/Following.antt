-- ===== src/Listing/Following.antt =====
-- A client that follows the pages of a listing (internal/handlers/bucket.go).
use byte_bucket.Prelude.{
  ℕ, zero, suc, ◌-◌, ◌≤◌, ◌<◌, Bool, true, false, List, [], ◌∷◌, ◌++◌, Option, none, some, ◌==◌,
  nat_equality, list_equality, if◌then◌else◌, ltb, length, take, drop, take-append-drop,
  length-drop, ltb→lt, ◌≡◌, ◌⊎◌, refl, sym, ap, ◌∙◌, arith, Bool-cases, inl, inr,
}
use byte_bucket.Bytes.{Bytes}
use byte_bucket.Listing.{
  EmitItem, merged, seek, seek_unless_empty, Page, key_at, cut_page, list_page, text_le,
}
use byte_bucket.Listing.Paging.{
  AllAfter, Ascending, AllAfter-key_at, seek-AllAfter, seek-key_at, text_le_total,
}
use byte_bucket.Listing.Order.{Absent, AllAfter-trans}
use byte_bucket.Listing.Merged.{Missing, Distinct, merged-Ascending, merged_named}

le_step :
    (x y z : ℕ) (p q r : Bool)
    → (if x == y then p else ltb x y) ≡ true
    → (if y == z then q else ltb y z) ≡ true
    → (p ≡ true → q ≡ true → r ≡ true)
    → (if x == z then r else ltb x z) ≡ true
le_step x y z p q r h k next = ground arith

text_le_trans : (a b c : Bytes) → text_le a b ≡ true → text_le b c ≡ true → text_le a c ≡ true
unfolding text_le
text_le_trans [] b c h k = refl
text_le_trans (x ∷ a) [] c h k = cc h
text_le_trans (x ∷ a) (y ∷ b) [] h k = cc k
text_le_trans (x ∷ a) (y ∷ b) (z ∷ c) h k =
    le_step x y z (text_le a b) (text_le b c) (text_le a c) h k (text_le_trans a b c)

-- To resume at a later key is to resume where an earlier cursor left off.
seek_later :
    (c k : Bytes) (is : List EmitItem) → text_le c k ≡ true → seek k (seek c is) ≡ seek k is
unfolding seek
seek_later c k [] h = refl
seek_later c k (i ∷ is) h = elim (Bool-cases (text_le i.key c)) [
  | inl before ↦ rw (before, text_le_trans i.key c k before h) (seek_later c k is h)
  | inr after ↦ rw after refl
]

seek-Ascending :
    (c : Bytes) (is : List EmitItem) → Ascending is → Ascending (seek c is) × AllAfter c (seek c is)
unfolding seek
seek-Ascending c [] a = (tt, tt)
seek-Ascending c (i ∷ is) a = elim (Bool-cases (text_le i.key c)) [
  | inl before ↦ rw before (seek-Ascending c is a.1)
  | inr after ↦ rw after ((a.0, a.1), (after, AllAfter-trans c i.key is after a.0))
]

after_empty : (k : Bytes) → (k == []) ≡ false → text_le k [] ≡ false
unfolding text_le
after_empty [] h = cc h
after_empty (x ∷ k) h = refl

named_after : (is : List EmitItem) → Absent [] is → AllAfter [] is
unfolding text_le
named_after [] a = tt
named_after (i ∷ is) a = (after_empty i.key a.0, named_after is a.1)

seek_all : (c : Bytes) (is : List EmitItem) → AllAfter [] is → seek_unless_empty c is ≡ seek c is
unfolding seek_unless_empty
seek_all [] is a = sym (seek-AllAfter [] is a)
seek_all (x ∷ c) is a = refl

pred : (n : ℕ) → suc n - 1 ≡ n
pred n = omega arith

-- A page, with what the later ones bring when it was cut short.
gather : Page → Option (List EmitItem) → Option (List EmitItem)
gather page more =
    if page.truncated
    then elim more [ none ↦ none | some rest ↦ some (page.items ++ rest) ]
    else some page.items

gather_last :
    (page : Page) (more : Option (List EmitItem)) (xs : List EmitItem)
    → page.truncated ≡ false
    → page.items ≡ xs
    → gather page more ≡ some xs
unfolding gather
gather_last page more xs whole items = rw whole (ap some items)

gather_cut :
    (page : Page) (more : Option (List EmitItem)) (xs rest : List EmitItem)
    → page.truncated ≡ true
    → page.items ≡ xs
    → more ≡ some rest
    → gather page more ≡ some (xs ++ rest)
unfolding gather
gather_cut page more xs rest short items later =
    rw (short, later) (ap (λ ys. some (ys ++ rest)) items)

-- The entries that a client gathers who asks again from the last key of each page that was cut
-- short, with a bound on its requests.
pub follow : ℕ → Bytes → Bytes → ℕ → Bytes → List Bytes → Option (List EmitItem)
unfolding gather
follow zero prefix delimiter max_keys cursor files = none
follow (suc requests) prefix delimiter max_keys cursor files =
    let page = list_page prefix delimiter max_keys cursor files in
    gather page (follow requests prefix delimiter max_keys page.last_key files)

module _ (prefix delimiter : Bytes) (m : ℕ) (files : List Bytes) where
  -- A page from a cursor, cut short or not.
  page_cases :
      (c : Bytes)
      → AllAfter [] (merged prefix delimiter files)
      → (((list_page prefix delimiter (suc m) c files).truncated ≡ false)
          × ((list_page prefix delimiter (suc m) c files).items
              ≡ seek c (merged prefix delimiter files)))
        ⊎ (((list_page prefix delimiter (suc m) c files).truncated ≡ true)
            × ((list_page prefix delimiter (suc m) c files).items
                ≡ take (suc m) (seek c (merged prefix delimiter files)))
            × ((list_page prefix delimiter (suc m) c files).last_key
                ≡ key_at m (seek c (merged prefix delimiter files)))
            × (suc m < length (seek c (merged prefix delimiter files))))
  unfolding list_page cut_page
  page_cases c a =
      let s = seek c (merged prefix delimiter files) in
      rw (seek_all c (merged prefix delimiter files) a)
        (elim (Bool-cases (ltb (suc m) (length s))) [
          | inl more ↦
              rw more
                (inr (refl, refl, ap (λ n. key_at n s) (pred m), ltb→lt (suc m) (length s) more))
          | inr all ↦ rw all (inl (refl, refl))
        ])

  follow_from :
      (requests : ℕ) (c : Bytes)
      → Ascending (merged prefix delimiter files)
      → AllAfter [] (merged prefix delimiter files)
      → length (seek c (merged prefix delimiter files)) < requests
      → follow requests prefix delimiter (suc m) c files
        ≡ some (seek c (merged prefix delimiter files))
  unfolding follow
  follow_from zero c a b h = absurd (omega arith)
  follow_from (suc n) c a b h = elim (page_cases c b) [
    | inl (whole, items) ↦ gather_last (list_page prefix delimiter (suc m) c files) _ _ whole items
    | inr (cut, items, last, fits) ↦
        let e = merged prefix delimiter files in
        let s = seek c e in
        let k = key_at m s in
        let (up, past) = seek-Ascending c e a in
        let beyond = text_le_total c k (AllAfter-key_at c m s (omega arith) past) in
        let next : seek k e ≡ drop (suc m) s =
          sym (seek_later c k e beyond) ∙ seek-key_at m s (omega arith) up in
        let left : length (seek k e) ≡ length (drop (suc m) s) =
          ap (λ (xs : List EmitItem). length xs) next in
        let shorter : length (seek k e) < n = omega (arith, left, length-drop (suc m) s, fits, h) in
        let later =
          ap (λ l. follow n prefix delimiter (suc m) l files) last ∙ follow_from n k a b shorter in
        gather_cut (list_page prefix delimiter (suc m) c files) _ (take (suc m) s) (seek k e) cut
          items later
        ∙ ap some
            (ap (λ (xs : List EmitItem). take (suc m) s ++ xs) next ∙ take-append-drop (suc m) s)
  ]

-- A client that follows the pages of a listing, with pages of one key or more, comes to an end
-- after at most one request for each entry and one more, and has then gathered all the entries in
-- their order, each once. The walk meets no key twice and no empty key.
pub follow-merged :
    (prefix delimiter : Bytes) (max_keys : ℕ) (files : List Bytes)
    → 1 ≤ max_keys
    → Distinct files
    → Missing [] files
    → (follow (suc (length (merged prefix delimiter files))) prefix delimiter max_keys [] files
        ≡ some (merged prefix delimiter files))
      × Ascending (merged prefix delimiter files)
follow-merged prefix delimiter zero files low d n = absurd (omega arith)
follow-merged prefix delimiter (suc m) files low d n =
    let a = merged-Ascending prefix delimiter files d in
    let b = named_after (merged prefix delimiter files) (merged_named prefix delimiter files n) in
    let whole = seek-AllAfter [] (merged prefix delimiter files) b in
    let bound : length (seek [] (merged prefix delimiter files))
        < suc (length (merged prefix delimiter files)) =
      rw whole (omega arith) in
    (follow_from prefix delimiter m files _ [] a b bound ∙ ap some whole, a)
