-- ===== src/Acl/Tests.antt =====
-- An object that is made public in a private bucket.
use byte_bucket.Prelude.{true, [], ◌∷◌, some, ◌≡◌, refl, ◌⊎◌}
use byte_bucket.Bytes.{Bytes, bytes, to_lower_byte, trim_space, trim_left}
use byte_bucket.Acl.{
  acl_private, acl_public_read, to_lower, normalize_canned_acl, ok, document, Sidecars,
  set_object_acl, store_acl, effective_object_acl,
}
use byte_bucket.Acl.Access.{effective-set_object_acl}

abbrev root : Bytes
root = bytes "/data/objects"

abbrev files : Sidecars
files = record {
  bucket_acl = document (record { canned = acl_private });
  object_meta = document ((bytes "ETag", bytes "x") ∷ []);
}

set_public : (set_object_acl true (bytes " Public-Read") files).0 ≡ ok tt
unfolding set_object_acl store_acl normalize_canned_acl to_lower to_lower_byte trim_space trim_left
set_public = refl

effective-set_object_acl_example :
    (canned : Bytes) × (normalize_canned_acl (bytes " Public-Read") ≡ some canned)
    × (effective_object_acl root (bytes "b") (set_object_acl true (bytes " Public-Read") files).1
        ≡ ok canned)
    × ((canned ≡ acl_private) ⊎ (canned ≡ acl_public_read))
effective-set_object_acl_example =
    effective-set_object_acl root (bytes "b") (bytes " Public-Read") true files set_public
