-- ===== src/Auth/Permission.antt =====
-- What a user's rules permit (internal/auth/auth.go).
pub mod Rights
use byte_bucket.Prelude.{
  Bool, true, false, ◌&&◌, ◌||◌, not, List, [], ◌∷◌, ◌==◌, nat_equality, list_equality,
  if◌then◌else◌,
}
use byte_bucket.Bytes.{Bytes, bytes, slash, has_byte}
use byte_bucket.Acl.{to_lower}
use byte_bucket.Auth.Request.{AclRule, User}

-- `strings.EqualFold` for ASCII text
unfoldable pub equal_fold : Bytes → Bytes → Bool
equal_fold s t = to_lower s == to_lower t

abbrev pub get_method : Bytes
get_method = bytes "GET"

abbrev pub head_method : Bytes
head_method = bytes "HEAD"

abbrev pub put_method : Bytes
put_method = bytes "PUT"

abbrev pub delete_method : Bytes
delete_method = bytes "DELETE"

abbrev pub post_method : Bytes
post_method = bytes "POST"

-- `[]` is the empty action, which nothing permits.
unfoldable pub get_action_from_method : Bytes → Bytes → Bytes
unfolding has_byte
get_action_from_method method bucket =
    if method == get_method
    then (if bucket == [] then bytes "s3:ListBuckets" else bytes "s3:GetObject")
    else if method == head_method
    then (if bucket == [] then bytes "s3:ListBuckets" else bytes "s3:ListBucket")
    else if method == put_method
    then (if not (bucket == []) && not (has_byte slash bucket)
        then bytes "s3:CreateBucket"
        else bytes "s3:PutObject")
    else if method == delete_method
    then (if not (bucket == []) && not (has_byte slash bucket)
        then bytes "s3:DeleteBucket"
        else bytes "s3:DeleteObject")
    else if method == post_method
    then bytes "s3:PutObject"
    else []

unfoldable pub is_bucket_allowed : List Bytes → Bytes → Bool
is_bucket_allowed [] bucket = false
is_bucket_allowed (b ∷ bs) bucket = (b == bytes "*" || b == bucket) || is_bucket_allowed bs bucket

unfoldable pub names_action : List Bytes → Bytes → Bool
names_action [] action = false
names_action (a ∷ more) action = (a == bytes "*" || a == action) || names_action more action

unfoldable pub has_object_action : List Bytes → Bool
has_object_action [] = false
has_object_action (a ∷ more) =
    (a == bytes "s3:GetObject" || a == bytes "s3:PutObject" || a == bytes "s3:DeleteObject")
    || has_object_action more

unfoldable pub is_action_allowed : List Bytes → Bytes → Bool
unfolding names_action has_object_action
is_action_allowed actions action =
    names_action actions action || (action == bytes "s3:ListBucket" && has_object_action actions)

unfoldable pub some_rule_allows : List AclRule → Bytes → Bytes → Bool
unfolding is_bucket_allowed is_action_allowed equal_fold
some_rule_allows [] bucket action = false
some_rule_allows (r ∷ rs) bucket action =
    (equal_fold r.effect (bytes "Allow")
      && (is_bucket_allowed r.buckets bucket && is_action_allowed r.actions action))
    || some_rule_allows rs bucket action

unfoldable pub is_user_allowed : User → Bytes → Bytes → Bool
unfolding some_rule_allows get_action_from_method
is_user_allowed user method bucket =
    let action = get_action_from_method method bucket in
    if action == [] then false else some_rule_allows user.acl bucket action
