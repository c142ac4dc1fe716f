-- ===== src/Gateway/Checks.antt =====
-- The checks of the handlers of cross-domain-id-jag-vc/gitea-gateway/app.py, in their order, on the
-- claims that their dependency hands them.
use agent_identity_demos.Prelude.{
  ℕ, String, ◌≡◌, refl, ap₂, Bool, ◌&&◌, not, ◌||◌, Option, none, some, List, [], ◌∷◌, ◌++◌,
  contains, nat_eq, string_eq, Bool-cases, inl, inr,
}
use agent_identity_demos.Value.{
  Value, Fields, str, obj, end, get_default, set_item, eq_str, opt_str, get_default-set_item,
}
use agent_identity_demos.Effects.{Exn, M, World, History, ◌>>=◌, as_dict, pure}
use agent_identity_demos.Effects.Guards.{Checks, checks_rules, Checks-require, Checks-bind}
use agent_identity_demos.Gateway.Config.{Config}
use agent_identity_demos.Gateway.Token.{Headers, opt_is, envoy_policy}
use agent_identity_demos.Gateway.Policy.{
  scopes, insufficient_scope, require_scope, ResourceContext, check_context, require_policy_context,
  policy_is_for, context_valid, context_mismatch, invalid_context,
}
use agent_identity_demos.Gateway.Routes.{
  OpenPr, full_name, source_mismatch, source_denied, pr_denied, repository_of, source_guards,
  list_guards, create_guards, push_guards, pr_guards,
}

-- Storing the policy of Envoy among the claims leaves their scope alone.
pub scopes-set_policy :
    (w : World) (v : Value) (claims : Fields)
    → scopes w (set_item "_envoy_policy" v claims) ≡ scopes w claims
unfolding scopes string_eq
scopes-set_policy w v claims = rw (get_default-set_item "_envoy_policy" "scope" (str "") v claims)

pub get-set_policy :
    (d v : Value) (claims : Fields)
    → get_default "_envoy_policy" d (set_item "_envoy_policy" v claims) ≡ v
unfolding string_eq
get-set_policy d v claims = rw (get_default-set_item "_envoy_policy" "_envoy_policy" d v claims)

-- The signed policy headers are about this action and this repository.
abbrev pub headers_are_for : Headers → String → String → Bool
headers_are_for hs action repository =
    opt_is hs.policy_action action && opt_is hs.policy_repository repository

eq_str-opt_str : (o : Option String) (s : String) → eq_str (opt_str o) s ≡ opt_is o s
eq_str-opt_str none s = refl
eq_str-opt_str (some t) s = refl

-- The fields of `envoy_policy`.
abbrev policy_fields : Headers → ℕ → Fields
policy_fields hs depth = elim (envoy_policy hs depth) [ obj fs ↦ fs | _ ↦ end ]

policy_is_for-policy_fields :
    (hs : Headers) (depth : ℕ) (action repository : String)
    → policy_is_for (policy_fields hs depth) action repository
      ≡ headers_are_for hs action repository
unfolding string_eq get_default
policy_is_for-policy_fields hs depth action repository =
    ap₂ (λ a b. a && b) (eq_str-opt_str hs.policy_action action)
      (eq_str-opt_str hs.policy_repository repository)

module _ (w : World) (h : History) where
  -- The context check reads the policy, and is off where the policy of Envoy is not required.
  check_context-eq :
      (policy : Fields) (action repository : String) (context : Option ResourceContext)
      → Checks
          (check_context policy action repository context)
          w
          h
          ((policy_is_for policy action repository, context_mismatch action repository)
            ∷ (context_valid context, invalid_context)
            ∷ [])
          (obj policy)
  unfolding check_context
  check_context-eq policy action repository context = search checks_rules

-- The claims that a handler is given.
abbrev pub checked_claims : Headers → ℕ → Fields → Fields
checked_claims hs depth claims = set_item "_envoy_policy" (envoy_policy hs depth) claims

module _ (cfg : Config) (hs : Headers) (depth : ℕ) (claims : Fields) (w : World) (h : History) where
  -- The checks of `require_policy_context` on such claims.
  abbrev pub context_checks : String → String → Option ResourceContext → List (Bool × Exn)
  context_checks action repository context =
      (
        not cfg.require_envoy_policy || headers_are_for hs action repository,
        context_mismatch action repository,
      )
      ∷ (not cfg.require_envoy_policy || context_valid context, invalid_context)
      ∷ []

  require_policy_context-envoy :
      (action repository : String) (context : Option ResourceContext)
      → Checks
          (require_policy_context cfg (checked_claims hs depth claims) action repository context)
          w
          h
          (context_checks action repository context)
          (envoy_policy hs depth)
  require_policy_context-envoy action repository context =
      elim (Bool-cases cfg.require_envoy_policy) [
        | inl on ↦ record {
          runs =
              unfold require_policy_context ◌>>=◌ as_dict in
              rw (
                get-set_policy,
                on,
                (check_context-eq w h (policy_fields hs depth) action repository context).runs,
                policy_is_for-policy_fields hs depth,
              );
        }
        | inr off ↦ record { runs = unfold require_policy_context pure in rw (get-set_policy, off) }
      ]

  abbrev pub scope_check : String → Bool × Exn
  scope_check needed =
      (contains (scopes w claims) needed, insufficient_scope needed (scopes w claims))

  require_scope-envoy :
      (needed : String)
      → Checks
          (require_scope (checked_claims hs depth claims) needed)
          w
          h
          (scope_check needed ∷ [])
          tt
  require_scope-envoy needed = record {
    runs =
        unfold require_scope in
        rw scopes-set_policy
          (Checks-require w h (contains (scopes w claims) needed)
            (insufficient_scope needed (scopes w claims))).runs;
  }

  module _ (checks : List (Bool × Exn)) (a : Value) where
    require_scope_bind :
        (needed : String) (k : Unit {0} → M Value)
        → Checks (k tt) w h checks a
        → Checks
            (require_scope (checked_claims hs depth claims) needed >>= k)
            w
            h
            (scope_check needed ∷ checks)
            a
    require_scope_bind needed k next =
        Checks-bind w h _ k _ checks tt a (require_scope-envoy needed) next

    require_policy_context_bind :
        (action repository : String) (context : Option ResourceContext) (k : Value → M Value)
        → Checks (k (envoy_policy hs depth)) w h checks a
        → Checks
            (require_policy_context cfg (checked_claims hs depth claims) action repository context
              >>= k)
            w
            h
            (context_checks action repository context ++ checks)
            a
    require_policy_context_bind action repository context k next =
        Checks-bind w h _ k _ checks _ a (require_policy_context-envoy action repository context)
          next

  ruleset envoy_rules = (
    checks_rules, require_scope-envoy, require_scope_bind, require_policy_context-envoy,
    require_policy_context_bind,
  )

  -- `read_source` reads the repository from the stored policy.
  repository_of-envoy : repository_of (envoy_policy hs depth) ≡ opt_str hs.policy_repository
  unfolding get_default string_eq
  repository_of-envoy = refl

  pub source_guards-envoy :
      (owner repo : String)
      → Checks
          (source_guards cfg (checked_claims hs depth claims) owner repo)
          w
          h
          (scope_check cfg.read_scope
            ∷ (
              not cfg.require_envoy_policy || opt_is hs.policy_repository (full_name owner repo),
              source_mismatch (full_name owner repo) (opt_str hs.policy_repository),
            )
            ∷ (not (contains cfg.deny_list repo), source_denied repo)
            ∷ [])
          (envoy_policy hs depth)
  unfolding source_guards
  source_guards-envoy owner repo =
      rw (get-set_policy, repository_of-envoy, eq_str-opt_str) (search envoy_rules)

  pub list_guards-envoy :
      Checks
        (list_guards cfg (checked_claims hs depth claims))
        w
        h
        (context_checks "list-repos" "" none ++ (scope_check cfg.read_scope ∷ []))
        (envoy_policy hs depth)
  unfolding list_guards
  list_guards-envoy = search envoy_rules

  pub create_guards-envoy :
      Checks
        (create_guards cfg (checked_claims hs depth claims))
        w
        h
        (context_checks "create-repo" "" none ++ (scope_check cfg.write_scope ∷ []))
        (envoy_policy hs depth)
  unfolding create_guards
  create_guards-envoy = search envoy_rules

  pub push_guards-envoy :
      (owner repo : String) (body : Option ResourceContext)
      → Checks
          (push_guards cfg (checked_claims hs depth claims) owner repo body)
          w
          h
          (scope_check cfg.write_scope ∷ context_checks "push-file" (full_name owner repo) body)
          (envoy_policy hs depth)
  unfolding push_guards
  push_guards-envoy owner repo body = search envoy_rules

  pub pr_guards-envoy :
      (owner repo : String) (body : OpenPr)
      → Checks
          (pr_guards cfg (checked_claims hs depth claims) owner repo body)
          w
          h
          (scope_check cfg.pr_scope
            ∷ (context_checks "open-pr" (full_name owner repo) (some body.context)
                ++ ((not (contains cfg.deny_list repo), pr_denied repo) ∷ [])))
          (envoy_policy hs depth)
  unfolding pr_guards
  pr_guards-envoy owner repo body = search envoy_rules
