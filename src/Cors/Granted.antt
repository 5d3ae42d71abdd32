-- ===== src/Cors/Granted.antt =====
-- When a response carries CORS headers (internal/middleware/bucket_cors.go,
-- internal/storage/bucket_cors.go).
use byte_bucket.Prelude.{
  Bool, true, false, ◌&&◌, not, List, [], ◌∷◌, Option, none, some, ◌⊎◌, inl, inr, ◌==◌,
  nat_equality, list_equality, list_test_iff, if◌then◌else◌, ◌≡◌, ◌≢◌, refl, sym, ap, ◌∙◌,
  Bool-cases,
}
use byte_bucket.Bytes.{Bytes}
use byte_bucket.Acl.{File}
use byte_bucket.Cors.{
  BucketCorsRule, BucketCorsConfig, Found, found, failed, get_bucket_cors, match_list,
  headers_allowed, rule_matches, match_cors_rule, bucket_from_path, CorsHeaders, apply_cors_headers,
  Request, options_method, Outcome, passed_on, answered, without_headers, apply_rule, with_config,
  bucket_cors_middleware,
}
use byte_bucket.Cors.Patterns.{Covered, match_list_iff}
use mathlib.Core.Option.{some-injective}

-- The headers that an outcome carries.
abbrev pub headers_of : Outcome → Option CorsHeaders
headers_of (passed_on h) = h
headers_of (answered status h) = h

-- The method that a rule must allow: the one that a preflight asks for.
abbrev pub checked_method : Request → Bytes
checked_method r = if r.method == options_method then r.request_method else r.method

-- The rule is the first of the list that matches.
abbrev pub IsFirst : (BucketCorsRule → Bool) → BucketCorsRule → List BucketCorsRule → Type 0
IsFirst test rule [] = ⊥
IsFirst test rule (r ∷ rules) =
    ((r ≡ rule) × (test r ≡ true)) ⊎ ((test r ≡ false) × IsFirst test rule rules)

pub record IsGranted (objects_root : Bytes) (files : Bytes → File BucketCorsConfig) (r : Request)
    (h : CorsHeaders) : Type 0 where
  pub config : BucketCorsConfig
  pub stored :
      get_bucket_cors objects_root (bucket_from_path r.path) (files (bucket_from_path r.path))
      ≡ found config
  pub rule : BucketCorsRule
  pub is_first : IsFirst (rule_matches r.origin (checked_method r) r.request_headers) rule config
  pub origin : Covered rule.allowed_origins r.origin
  pub method : (checked_method r ≡ []) ⊎ Covered rule.allowed_methods (checked_method r)
  pub req_headers : headers_allowed rule.allowed_headers r.request_headers ≡ true
  pub carried : h ≡ apply_cors_headers rule r.origin
  pub echoed : h.allow_origin ≡ r.origin
  pub some_origin : r.origin ≢ []

match-IsFirst :
    (rules : List BucketCorsRule) (origin method req_headers : Bytes) (rule : BucketCorsRule)
    → match_cors_rule rules origin method req_headers ≡ some rule
    → IsFirst (rule_matches origin method req_headers) rule rules
unfolding match_cors_rule
match-IsFirst [] origin method req_headers rule h = cc h
match-IsFirst (r ∷ rules) origin method req_headers rule h =
    elim (Bool-cases (rule_matches origin method req_headers r)) [
      | inl hit ↦ inl (some-injective _ _ (rw hit at h), hit)
      | inr miss ↦ inr (miss, match-IsFirst rules origin method req_headers rule (rw miss at h))
    ]

IsFirst-matches :
    (test : BucketCorsRule → Bool) (rule : BucketCorsRule) (rules : List BucketCorsRule)
    → IsFirst test rule rules
    → test rule ≡ true
IsFirst-matches test rule [] h = absurd h
IsFirst-matches test rule (r ∷ rules) (inl (same, hit)) = ap test (sym same) ∙ hit
IsFirst-matches test rule (r ∷ rules) (inr (miss, later)) = IsFirst-matches test rule rules later

rule_guards :
    (origin empty method headers : Bool)
    → (if not origin
        then false
        else if not empty && not method
        then false
        else if not headers
        then false
        else true)
      ≡ true
    → (origin ≡ true) × ((empty ≡ true) ⊎ (method ≡ true)) × (headers ≡ true)
rule_guards true true method true h = (refl, inl refl, refl)
rule_guards true false true true h = (refl, inr refl, refl)
rule_guards true true method false h = cc h
rule_guards true false true false h = cc h
rule_guards true false false headers h = cc h
rule_guards false empty method headers h = cc h

allowed_by :
    (r : BucketCorsRule) (origin method req_headers : Bytes)
    → rule_matches origin method req_headers r ≡ true
    → Covered r.allowed_origins origin
      × ((method ≡ []) ⊎ Covered r.allowed_methods method)
      × (headers_allowed r.allowed_headers req_headers ≡ true)
unfolding rule_matches
allowed_by r origin method req_headers h =
    let (by_origin, by_method, by_headers) =
      rule_guards (match_list r.allowed_origins origin) (method == [])
        (match_list r.allowed_methods method) (headers_allowed r.allowed_headers req_headers) h in
    (
      (match_list_iff r.allowed_origins origin).0 by_origin,
      elim by_method [
        | inl empty ↦ inl ((list_test_iff method []).0 empty)
        | inr listed ↦ inr ((match_list_iff r.allowed_methods method).0 listed)
      ],
      by_headers,
    )

no_headers : (preflight : Bool) (h : CorsHeaders) → headers_of (without_headers preflight) ≢ some h
unfolding without_headers
no_headers true h = λ e. cc e
no_headers false h = λ e. cc e

applied :
    (preflight : Bool) (origin : Bytes) (o : Option BucketCorsRule) (h : CorsHeaders)
    → headers_of (apply_rule preflight origin o) ≡ some h
    → (rule : BucketCorsRule) × (o ≡ some rule) × (h ≡ apply_cors_headers rule origin)
unfolding apply_rule
applied preflight origin none h e = absurd (no_headers preflight h e)
applied true origin (some rule) h e = (rule, refl, sym (some-injective _ _ e))
applied false origin (some rule) h e = (rule, refl, sym (some-injective _ _ e))

origin_echoed :
    (rule : BucketCorsRule) (origin : Bytes)
    → (apply_cors_headers rule origin).allow_origin ≡ origin
unfolding apply_cors_headers
origin_echoed rule origin = refl

module _ (objects_root : Bytes) (files : Bytes → File BucketCorsConfig) (r : Request)
    (h : CorsHeaders) where
  from_config :
      (c : Found BucketCorsConfig)
      → get_bucket_cors objects_root (bucket_from_path r.path) (files (bucket_from_path r.path)) ≡ c
      → (r.origin == []) ≡ false
      → headers_of (with_config r c) ≡ some h
      → IsGranted objects_root files r h
  unfolding with_config
  from_config (failed e) stored present given = absurd (no_headers _ h given)
  from_config (found config) stored present given =
      let (rule, matched, carried) = applied (r.method == options_method) r.origin _ h given in
      let first = match-IsFirst config r.origin (checked_method r) r.request_headers rule matched in
      let (origin, method, req_headers) =
        allowed_by rule r.origin (checked_method r) r.request_headers
          (IsFirst-matches _ rule config first) in
      record {
        config = config;
        stored = stored;
        rule = rule;
        is_first = first;
        origin = origin;
        method = method;
        req_headers = req_headers;
        carried = carried;
        echoed = ap (λ (x : CorsHeaders). x.allow_origin) carried ∙ origin_echoed rule r.origin;
        some_origin = λ e. cc (sym present ∙ (list_test_iff r.origin []).1 e);
      }

  -- A response carries CORS headers only when the request names an origin and the configuration of
  -- its bucket has a rule for it, the first rule that matches: one of the rule's patterns covers the
  -- origin, the rule allows the headers that are asked for, and one of its patterns covers the
  -- method, which for OPTIONS is the one that it asks for, unless that is empty. All the headers are
  -- those of that rule, and they allow that origin and no other.
  pub bucket_cors_middleware-IsGranted :
      headers_of (bucket_cors_middleware objects_root files r) ≡ some h
      → IsGranted objects_root files r h
  unfolding bucket_cors_middleware
  bucket_cors_middleware-IsGranted given = elim (Bool-cases (r.origin == [])) [
    | inl absent ↦ absurd (cc (rw absent at given))
    | inr present ↦ elim (Bool-cases (bucket_from_path r.path == [])) [
      | inl service ↦ absurd (no_headers _ h (rw (present, service) at given))
      | inr bucket ↦ from_config _ refl present (rw (present, bucket) at given)
    ]
  ]
