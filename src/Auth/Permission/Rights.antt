-- ===== src/Auth/Permission/Rights.antt =====
-- Which right a write needs (internal/auth/auth.go).
use byte_bucket.Prelude.{
  Bool, true, false, ◌&&◌, ◌||◌, List, [], ◌∷◌, ◌==◌, nat_equality, list_equality, ◌≡◌, refl, arith,
}
use byte_bucket.Bytes.{Bytes, bytes, slash, has_byte}
use byte_bucket.Names.{validate_bucket_name}
use byte_bucket.Names.Buckets.{bucket-IsProper}
use byte_bucket.Path.Render.{NoSlash}
use byte_bucket.Auth.Request.{AclRule, User}
use byte_bucket.Auth.Permission.{
  get_action_from_method, put_method, delete_method, is_bucket_allowed, names_action,
  is_action_allowed, some_rule_allows, is_user_allowed, equal_fold,
}

-- No rule names the action, or every action.
abbrev pub LacksAction : List AclRule → Bytes → Type 0
LacksAction [] action = Unit
LacksAction (r ∷ rs) action = (names_action r.actions action ≡ false) × LacksAction rs action

no_byte : (here later : Bool) → here ≡ false → later ≡ false → (here || later) ≡ false
no_byte here later h1 h2 = ground arith

has_byte-slashless : (s : Bytes) → NoSlash s → has_byte slash s ≡ false
unfolding has_byte
has_byte-slashless [] h = refl
has_byte-slashless (c ∷ s) h = no_byte _ _ h.0 (has_byte-slashless s h.1)

denied : (allow bucket : Bool) → (allow && (bucket && false) || false) ≡ false
denied allow bucket = ground arith

lacking :
    (rules : List AclRule) (bucket action : Bytes)
    → (action == bytes "s3:ListBucket") ≡ false
    → LacksAction rules action
    → some_rule_allows rules bucket action ≡ false
unfolding some_rule_allows is_action_allowed
lacking [] bucket action other h = refl
lacking (r ∷ rs) bucket action other h =
    rw (h.0, other, lacking rs bucket action other h.1)
      (denied (equal_fold r.effect (bytes "Allow")) (is_bucket_allowed r.buckets bucket))

-- Without the right to create buckets no rule on objects permits a PUT in a bucket, and without the
-- right to delete them none permits a DELETE.
pub is_user_allowed-writes :
    (user : User) (bucket : Bytes)
    → validate_bucket_name bucket ≡ true
    → (LacksAction user.acl (bytes "s3:CreateBucket")
        → is_user_allowed user put_method bucket ≡ false)
      × (LacksAction user.acl (bytes "s3:DeleteBucket")
          → is_user_allowed user delete_method bucket ≡ false)
unfolding is_user_allowed get_action_from_method
is_user_allowed-writes user bucket valid =
    let proper = bucket-IsProper bucket valid in
    let none_in = has_byte-slashless bucket proper.no_slash in
    (
      (λ h.
          rw (proper.some_name, none_in)
            (lacking user.acl bucket (bytes "s3:CreateBucket") refl h)),
      (λ h.
          rw (proper.some_name, none_in)
            (lacking user.acl bucket (bytes "s3:DeleteBucket") refl h)),
    )
