-- ===== src/Acl/Access.antt =====
-- Who may read, by the sidecars (internal/storage/acl.go).
use byte_bucket.Prelude.{
  Bool, true, false, [], ◌∷◌, Option, none, some, ◌==◌, nat_equality, list_equality, if◌then◌else◌,
  ◌≡◌, ◌≢◌, refl, sym, ap, subst, ◌∙◌, Option-cases, inl, inr, ◌⊎◌,
}
use byte_bucket.Bytes.{Bytes, bytes, to_lower_byte, trim_space}
use byte_bucket.Table.{Table, insert, lookup-insert}
use byte_bucket.Acl.{
  acl_private, acl_public_read, to_lower, normalize_canned_acl, Result, ok, failed,
  no_such_bucket_acl, unsupported_canned_acl, path_escape, io_error, bad_json, nil_bucket_acl,
  AclSource, acl_source_object, File, missing, unreadable, garbage, document, BucketAcl, Sidecars,
  get_bucket_acl, effective_of, effective_bucket_acl, acl_of, object_acl_from_sidecar,
  resolve_bucket, resolve_object_acl, effective_object_acl, store_acl, set_object_acl,
}

abbrev pub without_source : Result (Bytes × AclSource) → Result Bytes
without_source (ok (acl, source)) = ok acl
without_source (failed e) = failed e

resolve-effective_bucket :
    (r : Result BucketAcl) → without_source (resolve_bucket r) ≡ effective_of r
unfolding resolve_bucket effective_of
resolve-effective_bucket (ok acl) = refl
resolve-effective_bucket (failed no_such_bucket_acl) = refl
resolve-effective_bucket (failed unsupported_canned_acl) = refl
resolve-effective_bucket (failed path_escape) = refl
resolve-effective_bucket (failed io_error) = refl
resolve-effective_bucket (failed bad_json) = refl
resolve-effective_bucket (failed nil_bucket_acl) = refl

-- The ACL that a listing shows is the one that decides about access, on every state of the
-- sidecars, errors included.
pub resolve-effective_object_acl :
    (root bucket : Bytes) (files : Sidecars)
    → without_source (resolve_object_acl root bucket files) ≡ effective_object_acl root bucket files
unfolding resolve_object_acl effective_object_acl effective_bucket_acl
resolve-effective_object_acl root bucket files = by_object (object_acl_from_sidecar files)
  where
    by_object :
        (r : Result Bytes)
        → without_source (elim r [
          | failed e ↦ failed e
          | ok [] ↦ resolve_bucket (get_bucket_acl root bucket files)
          | ok (c ∷ acl) ↦ ok (to_lower (c ∷ acl), acl_source_object)
        ])
          ≡ (elim r [
            | failed e ↦ failed e
            | ok [] ↦ effective_of (get_bucket_acl root bucket files)
            | ok (c ∷ acl) ↦ ok (to_lower (c ∷ acl))
          ])
    by_object (failed e) = refl
    by_object (ok []) = resolve-effective_bucket (get_bucket_acl root bucket files)
    by_object (ok (c ∷ acl)) = refl

normalized_form :
    (a b c : Bool) (v : Bytes)
    → (if a
        then some acl_private
        else if b
        then some acl_private
        else if c
        then some acl_public_read
        else none)
      ≡ some v
    → (v ≡ acl_private) ⊎ (v ≡ acl_public_read)
normalized_form true b c v h = inl (cc h)
normalized_form false true c v h = inl (cc h)
normalized_form false false true v h = inr (cc h)
normalized_form false false false v h = absurd (cc h)

normalize-canned :
    (v canned : Bytes)
    → normalize_canned_acl v ≡ some canned
    → (canned ≡ acl_private) ⊎ (canned ≡ acl_public_read)
unfolding normalize_canned_acl
normalize-canned v canned h =
    let s = to_lower (trim_space v) in
    normalized_form (s == []) (s == acl_private) (s == acl_public_read) canned h

acl_of-insert :
    (canned : Bytes) (meta : Table Bytes Bytes) → acl_of (insert (bytes "acl") canned meta) ≡ canned
unfolding acl_of
acl_of-insert canned meta =
    ap (λ (o : Option Bytes). elim o [ none ↦ [] | some acl ↦ acl ])
      (lookup-insert (bytes "acl") (bytes "acl") canned meta)

own_text :
    (r : Bytes)
    → (r ≡ acl_private) ⊎ (r ≡ acl_public_read)
    → (c : Bytes) → r ≡ c
    → (unowned : Result Bytes)
    → (elim r [ [] ↦ unowned | d ∷ acl ↦ ok (to_lower (d ∷ acl)) ]) ≡ ok c
unfolding to_lower to_lower_byte
own_text r (inl p) c q unowned =
    ap (λ (t : Bytes). elim t [ [] ↦ unowned | d ∷ acl ↦ ok (to_lower (d ∷ acl)) ]) p
    ∙ ap ok (sym p ∙ q)
own_text r (inr p) c q unowned =
    ap (λ (t : Bytes). elim t [ [] ↦ unowned | d ∷ acl ↦ ok (to_lower (d ∷ acl)) ]) p
    ∙ ap ok (sym p ∙ q)

-- What is in force for an object whose sidecar is this document.
own_acl :
    (root bucket canned : Bytes) (meta : Table Bytes Bytes) (b : File BucketAcl)
    → (canned ≡ acl_private) ⊎ (canned ≡ acl_public_read)
    → acl_of meta ≡ canned
    → effective_object_acl root bucket (record { bucket_acl = b; object_meta = document meta })
      ≡ ok canned
unfolding effective_object_acl object_acl_from_sidecar
own_acl root bucket canned meta b form h =
    let files : Sidecars = record { bucket_acl = b; object_meta = document meta } in
    own_text (acl_of meta) (subst (λ c. (c ≡ acl_private) ⊎ (c ≡ acl_public_read)) (sym h) form)
      canned h (effective_bucket_acl root bucket files)

abbrev meta_of : File (Table Bytes Bytes) → Table Bytes Bytes
meta_of (document meta) = meta
meta_of f = []

set_meta : Bool → Bytes → Sidecars → File (Table Bytes Bytes) → Result {0} Unit × Sidecars
set_meta write_ok canned files missing = store_acl write_ok canned [] files
set_meta write_ok canned files unreadable = (failed io_error, files)
set_meta write_ok canned files garbage = (failed bad_json, files)
set_meta write_ok canned files (document meta) = store_acl write_ok canned meta files

set-normalized :
    (w : Bool) (v canned : Bytes) (files : Sidecars)
    → normalize_canned_acl v ≡ some canned
    → set_object_acl w v files ≡ set_meta w canned files files.object_meta
unfolding set_object_acl set_meta
set-normalized w v canned files n =
    ap
      (λ o. elim o [
        | none ↦ (failed unsupported_canned_acl, files)
        | some c ↦ set_meta w c files files.object_meta
      ])
      n

set_meta-document :
    (w : Bool) (canned : Bytes) (files : Sidecars) (f : File (Table Bytes Bytes))
    → (set_meta w canned files f).0 ≡ ok tt
    → (set_meta w canned files f).1
      ≡ record files { object_meta = document (insert (bytes "acl") canned (meta_of f)) }
unfolding set_meta store_acl
set_meta-document true canned files missing h = refl
set_meta-document false canned files missing h = absurd (cc h)
set_meta-document w canned files unreadable h = absurd (cc h)
set_meta-document w canned files garbage h = absurd (cc h)
set_meta-document true canned files (document meta) h = refl
set_meta-document false canned files (document meta) h = absurd (cc h)

set-refused :
    (w : Bool) (v : Bytes) (files : Sidecars)
    → normalize_canned_acl v ≡ none
    → set_object_acl w v files ≡ (failed unsupported_canned_acl, files)
unfolding set_object_acl set_meta
set-refused w v files n =
    ap
      (λ o. elim o [
        | none ↦ (failed unsupported_canned_acl, files)
        | some c ↦ set_meta w c files files.object_meta
      ])
      n

not_normalized :
    (w : Bool) (v : Bytes) (files : Sidecars)
    → normalize_canned_acl v ≡ none
    → (set_object_acl w v files).0 ≢ ok tt
not_normalized w v files n h =
    let clash : failed unsupported_canned_acl ≡ ok tt =
      sym (ap (λ r. r.0) (set-refused w v files n)) ∙ h in
    cc clash

-- After a successful request to set an object's ACL, the requested value in canonical form is in
-- force for the object, whatever the bucket's ACL is, and it is `private` or `public-read`.
pub effective-set_object_acl :
    (root bucket v : Bytes) (w : Bool) (files : Sidecars)
    → (set_object_acl w v files).0 ≡ ok tt
    → (canned : Bytes) × (normalize_canned_acl v ≡ some canned)
      × (effective_object_acl root bucket (set_object_acl w v files).1 ≡ ok canned)
      × ((canned ≡ acl_private) ⊎ (canned ≡ acl_public_read))
effective-set_object_acl root bucket v w files h = elim (Option-cases (normalize_canned_acl v)) [
  | inl n ↦ absurd (not_normalized w v files n h)
  | inr (canned, n) ↦
      let form = normalize-canned v canned n in
      let same = set-normalized w v canned files n in
      let written =
        set_meta-document w canned files files.object_meta (sym (ap (λ r. r.0) same) ∙ h) in
      (
        canned,
        n,
        ap (λ r. effective_object_acl root bucket r.1) same
            ∙ ap (effective_object_acl root bucket) written
            ∙ own_acl root bucket canned (insert (bytes "acl") canned (meta_of files.object_meta))
                files.bucket_acl form (acl_of-insert canned (meta_of files.object_meta)),
        form,
      )
]
