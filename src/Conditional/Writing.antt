-- ===== src/Conditional/Writing.antt =====
-- Which writes the preconditions let through (internal/handlers/conditional.go).
use byte_bucket.Prelude.{
  Bool, true, false, ◌&&◌, ◌||◌, not, List, [], ◌∷◌, ◌==◌, nat_equality, list_equality,
  list_test_iff, if◌then◌else◌, ◌≡◌, ◌⊎◌, ◌↔◌, inl, inr, refl, sym, ap, ◌∙◌, Bool-cases,
}
use byte_bucket.Bytes.{Bytes, trim_space, split}
use byte_bucket.Conditional.{
  star, candidate, any_matches, etag_matches, Headers, Verdict, proceed, precondition_failed,
  absent, present, exists, none_match_fails, match_verdict, evaluate_put_conditional,
}

-- One member of the list is the tag, without white space and a weak prefix.
abbrev pub Lists : List Bytes → Bytes → Type 0
Lists [] tag = ⊥
Lists (c ∷ cs) tag = (candidate c ≡ tag) ⊎ Lists cs tag

-- The header is a star, or a list with this tag.
abbrev pub Names : Bytes → Bytes → Type 0
Names header tag = (trim_space header ≡ star) ⊎ Lists (split b',' (trim_space header)) tag

either : (a b : Bool) → (a || b) ≡ true → (a ≡ true) ⊎ (b ≡ true)
either true b h = inl refl
either false b h = inr h

or_left : (a b : Bool) → a ≡ true → (a || b) ≡ true
or_left a b h = rw h refl

or_right : (a b : Bool) → b ≡ true → (a || b) ≡ true
or_right true b h = refl
or_right false b h = h

matches-Lists : (cs : List Bytes) (tag : Bytes) → any_matches cs tag ≡ true → Lists cs tag
unfolding any_matches
matches-Lists [] tag h = absurd (cc h)
matches-Lists (c ∷ cs) tag h = elim (either (candidate c == tag) (any_matches cs tag) h) [
  | inl here ↦ inl ((list_test_iff (candidate c) tag).0 here)
  | inr there ↦ inr (matches-Lists cs tag there)
]

Lists-matches : (cs : List Bytes) (tag : Bytes) → Lists cs tag → any_matches cs tag ≡ true
unfolding any_matches
Lists-matches [] tag l = absurd l
Lists-matches (c ∷ cs) tag (inl here) = or_left _ _ ((list_test_iff (candidate c) tag).1 here)
Lists-matches (c ∷ cs) tag (inr there) =
    or_right (candidate c == tag) _ (Lists-matches cs tag there)

matches-Names : (header tag : Bytes) → etag_matches header tag ≡ true → Names header tag
unfolding etag_matches
matches-Names header tag h =
    elim (either (trim_space header == star) (any_matches (split b',' (trim_space header)) tag) h) [
      | inl all ↦ inl ((list_test_iff (trim_space header) star).0 all)
      | inr one ↦ inr (matches-Lists _ tag one)
    ]

Names-matches : (header tag : Bytes) → Names header tag → etag_matches header tag ≡ true
unfolding etag_matches
Names-matches header tag (inl all) = or_left _ _ ((list_test_iff (trim_space header) star).1 all)
Names-matches header tag (inr one) =
    or_right (trim_space header == star) _ (Lists-matches _ tag one)

no_match : (header tag : Bytes) → etag_matches header tag ≡ false → ¬ Names header tag
no_match header tag h n = cc (sym h ∙ Names-matches header tag n)

not_named : (header tag : Bytes) → ¬ Names header tag → etag_matches header tag ≡ false
not_named header tag n = elim (Bool-cases (etag_matches header tag)) [
  | inl matched ↦ absurd (n (matches-Names header tag matched))
  | inr missed ↦ missed
]

star_matches : (header tag : Bytes) → (header == star) ≡ true → etag_matches header tag ≡ true
unfolding trim_space
star_matches header tag h =
    Names-matches header tag (inl (ap trim_space ((list_test_iff header star).0 h)))

-- The tests of the code, for a file with a tag.
decide : (m0 n0 ns mm mn : Bool) → Verdict
decide m0 n0 ns mm mn =
    if m0 && n0
    then proceed
    else if (if n0 then false else if ns then true else mn)
    then precondition_failed
    else if m0
    then proceed
    else if not mm
    then precondition_failed
    else proceed

decide-proceed :
    (m0 n0 ns mm mn : Bool)
    → (ns ≡ true → mn ≡ true)
    → (decide m0 n0 ns mm mn ≡ proceed)
    → ((m0 ≡ true) ⊎ (mm ≡ true)) × ((n0 ≡ true) ⊎ (mn ≡ false))
unfolding decide
decide-proceed true true ns mm mn s h = (inl refl, inl refl)
decide-proceed true false true mm mn s h = absurd (cc h)
decide-proceed true false false mm true s h = absurd (cc h)
decide-proceed true false false mm false s h = (inl refl, inr refl)
decide-proceed false true ns true mn s h = (inr refl, inl refl)
decide-proceed false true ns false mn s h = absurd (cc h)
decide-proceed false false true mm mn s h = absurd (cc h)
decide-proceed false false false mm true s h = absurd (cc h)
decide-proceed false false false true false s h = (inr refl, inr refl)
decide-proceed false false false false false s h = absurd (cc h)

proceed-decide :
    (m0 n0 ns mm mn : Bool)
    → (ns ≡ true → mn ≡ true)
    → ((m0 ≡ true) ⊎ (mm ≡ true)) × ((n0 ≡ true) ⊎ (mn ≡ false))
    → decide m0 n0 ns mm mn ≡ proceed
unfolding decide
proceed-decide true true ns mm mn s h = refl
proceed-decide false true ns true mn s h = refl
proceed-decide m0 false true mm true s (by_match, inr h) = absurd (cc h)
proceed-decide m0 false true mm false s h = absurd (cc (s refl))
proceed-decide true false false mm false s h = refl
proceed-decide false false false true false s h = refl
proceed-decide m0 false false mm true s (by_match, inr h) = absurd (cc h)
proceed-decide false n0 ns false mn s (inl h, by_none) = absurd (cc h)
proceed-decide false n0 ns false mn s (inr h, by_none) = absurd (cc h)
proceed-decide m0 false ns mm true s (by_match, inl h) = absurd (cc h)

evaluated :
    (h : Headers) (stored : Bytes)
    → evaluate_put_conditional h (present stored)
      ≡ decide
          (h.if_match == [])
          (h.if_none_match == [])
          (h.if_none_match == star)
          (etag_matches h.if_match stored)
          (etag_matches h.if_none_match stored)
unfolding evaluate_put_conditional exists none_match_fails match_verdict decide
evaluated h stored = refl

present-proceeds :
    (h : Headers) (stored : Bytes)
    → evaluate_put_conditional h (present stored) ≡ proceed
    → ((h.if_match ≡ []) ⊎ Names h.if_match stored)
      × ((h.if_none_match ≡ []) ⊎ (¬ Names h.if_none_match stored))
present-proceeds h stored e =
    let (by_match, by_none) =
      decide-proceed (h.if_match == []) (h.if_none_match == []) (h.if_none_match == star)
        (etag_matches h.if_match stored) (etag_matches h.if_none_match stored)
        (star_matches h.if_none_match stored) (sym (evaluated h stored) ∙ e) in
    (
      (elim by_match [
        | inl none_given ↦ inl ((list_test_iff h.if_match []).0 none_given)
        | inr matched ↦ inr (matches-Names h.if_match stored matched)
      ]),
      (elim by_none [
        | inl none_given ↦ inl ((list_test_iff h.if_none_match []).0 none_given)
        | inr missed ↦ inr (no_match h.if_none_match stored missed)
      ]),
    )

proceeds-present :
    (h : Headers) (stored : Bytes)
    → ((h.if_match ≡ []) ⊎ Names h.if_match stored)
      × ((h.if_none_match ≡ []) ⊎ (¬ Names h.if_none_match stored))
    → evaluate_put_conditional h (present stored) ≡ proceed
proceeds-present h stored (by_match, by_none) =
    evaluated h stored
    ∙ proceed-decide (h.if_match == []) (h.if_none_match == []) (h.if_none_match == star)
        (etag_matches h.if_match stored) (etag_matches h.if_none_match stored)
        (star_matches h.if_none_match stored)
        (
          (elim by_match [
            | inl none_given ↦ inl ((list_test_iff h.if_match []).1 none_given)
            | inr named ↦ inr (Names-matches h.if_match stored named)
          ]),
          (elim by_none [
            | inl none_given ↦ inl ((list_test_iff h.if_none_match []).1 none_given)
            | inr other ↦ inr (not_named h.if_none_match stored other)
          ]),
        )

decide_absent :
    (m0 n0 ns : Bool)
    → (if m0 && n0
        then proceed
        else if (if n0 then false else if ns then false else false)
        then precondition_failed
        else if m0
        then proceed
        else precondition_failed)
      ≡ (if m0 then proceed else precondition_failed)
decide_absent true true ns = refl
decide_absent true false true = refl
decide_absent true false false = refl
decide_absent false true ns = refl
decide_absent false false true = refl
decide_absent false false false = refl

-- The precondition of a write that finds an object with a stored tag lets it through just when
-- If-Match is not sent or names the tag, and If-None-Match is not sent or does not name it, where a
-- star names every tag and a list those of its members, without white space and a weak prefix. One
-- that finds no object passes just when If-Match is not sent, and is answered 412 otherwise.
pub evaluate_put_conditional_iff :
    (h : Headers) (stored : Bytes)
    → ((evaluate_put_conditional h (present stored) ≡ proceed) ↔ (
        ((h.if_match ≡ []) ⊎ Names h.if_match stored)
        × ((h.if_none_match ≡ []) ⊎ (¬ Names h.if_none_match stored))))
      × (evaluate_put_conditional h absent
          ≡ (if h.if_match == [] then proceed else precondition_failed))
unfolding evaluate_put_conditional exists none_match_fails match_verdict
evaluate_put_conditional_iff h stored = (
  (present-proceeds h stored, proceeds-present h stored),
  decide_absent (h.if_match == []) (h.if_none_match == []) (h.if_none_match == star),
)
