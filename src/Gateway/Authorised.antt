-- ===== src/Gateway/Authorised.antt =====
-- When the gateway of cross-domain-id-jag-vc/gitea-gateway/app.py asks Gitea for something, and
-- for what.
use agent_identity_demos.Prelude.{
  ℕ, String, ◌<>◌, ◌≡◌, ◌∙◌, ap, Bool, true, false, ◌&&◌, not, ◌||◌, Option, some, List, ◌∷◌, arith,
  contains, nat_eq, string_eq, if◌then◌else◌, Bool-cases, inl, inr,
}
use agent_identity_demos.Value.{Value, Fields}
use agent_identity_demos.Effects.{
  Result, Result-cases, ok, err, M, World, History, ◌>>=◌, require, as_dict, json, Request,
  Response, request, requests, token_hex, drew_token,
}
use agent_identity_demos.Effects.Guards.{requests-request, requests-guarded}
use agent_identity_demos.Gateway.Config.{Config}
use agent_identity_demos.Gateway.Token.{
  Headers, opt_is, verify_token, policy_depth, resource_policy_valid, source_read_policy_valid,
  checked_token, require_token, require_source_read_token,
}
use agent_identity_demos.Gateway.Policy.{scopes, ResourceContext, context_valid}
use agent_identity_demos.Gateway.Routes.{
  CreateRepo, OpenPr, full_name, gitea_request, source_request, source_reply, read_source,
  repos_reply, list_repos, create_request, created_reply, create_repo, push_request, pushed_reply,
  push_file, pr_request, pr_reply, open_pr,
}
use agent_identity_demos.Gateway.Checks.{
  headers_are_for, checked_claims, source_guards-envoy, list_guards-envoy, create_guards-envoy,
  push_guards-envoy, pr_guards-envoy,
}

-- Reading the answer of Gitea sends nothing.
module _ (w : World) (h : History) (claims : Fields) (r : Response) where
  history-source_reply :
      (policy : Value) (repository path : String)
      → (source_reply claims policy repository path r w h).1 ≡ h
  unfolding source_reply ◌>>=◌ require json as_dict
  history-source_reply policy repository path = ground arith

  history-repos_reply : (repos_reply claims r w h).1 ≡ h
  unfolding repos_reply ◌>>=◌ require json as_dict
  history-repos_reply = ground arith

  history-created_reply : (created_reply claims r w h).1 ≡ h
  unfolding created_reply ◌>>=◌ require json as_dict
  history-created_reply = ground arith

  history-pushed_reply :
      (policy : Value) (branch repository : String)
      → (pushed_reply claims policy branch repository r w h).1 ≡ h
  unfolding pushed_reply ◌>>=◌ require
  history-pushed_reply policy branch repository = ground arith

  history-pr_reply : (policy : Value) (body : OpenPr) → (pr_reply claims policy body r w h).1 ≡ h
  unfolding pr_reply ◌>>=◌ require json as_dict
  history-pr_reply policy body = ground arith

-- The conditions of the handlers, in the order of the code and in that of the statements.
module _ (a b c d n : Bool) where
  pr_conditions : (a && ((n || b) && ((n || c) && (d && true)))) ≡ (a && d && (n || b && c))
  pr_conditions = ground arith

module _ (a b c n : Bool) where
  push_conditions : (a && ((n || b) && ((n || c) && true))) ≡ (a && (n || b && c))
  push_conditions = ground arith

module _ (a b c : Bool) where
  source_conditions : (a && (b && (c && true))) ≡ (a && c && b)
  source_conditions = ground arith

  closed_conditions : ((c || b) && ((c || false) && (a && true))) ≡ (a && c)
  closed_conditions = ground arith

choose_ap : {a b : Bool} (x y : List Request) → a ≡ b → (if a then x else y) ≡ (if b then x else y)
choose_ap x y e = ap (λ c. if c then x else y) e

-- `push_file` draws the name of its branch before it asks.
module _ (w : World) (h : History) where
  requests-token :
      (q : String → Request) (k : String → Response → M Value)
      → ((token : String) (r : Response) (h'' : History) → (k token r w h'').1 ≡ h'')
      → requests ((token_hex 3 >>= λ token. request (q token) >>= k token) w h).1
        ≡ q (w.token_hex h 3) ∷ requests h
  unfolding token_hex ◌>>=◌ requests request
  requests-token q k quiet =
      requests-request w (drew_token ∷ h) (q (w.token_hex h 3)) (k (w.token_hex h 3))
        (quiet (w.token_hex h 3))

abbrev depth_passes : (ℕ → Bool) → Result ℕ → Bool
depth_passes p (ok depth) = p depth
depth_passes p (err e) = false

module _ (cfg : Config) (hs : Headers) (w : World) (h h' : History) (claims : Fields)
    (verified : verify_token cfg hs.authorization w h ≡ (ok claims, h')) where
  -- The depth header can be read, and the policy headers pass if they are required.
  abbrev admitted : (Headers → ℕ → Bool) → Bool
  admitted valid =
      depth_passes (λ depth. not cfg.require_envoy_policy || valid hs depth)
        (policy_depth hs.delegation_depth)

  behind_token :
      (valid : Headers → ℕ → Bool) (message : String) (k : Fields → M Value) (q : Request)
      (passes : Bool)
      → ((depth : ℕ)
          → requests (k (checked_claims hs depth claims) w h').1
            ≡ (if passes then q ∷ requests h' else requests h'))
      → requests ((checked_token cfg hs valid message >>= k) w h).1
        ≡ (if admitted valid && passes then q ∷ requests h' else requests h')
  unfolding ◌>>=◌ checked_token require
  behind_token valid message k q passes asks =
      elim (Result-cases (policy_depth hs.delegation_depth)) [
        | inl (depth, e) ↦ elim (Bool-cases (not cfg.require_envoy_policy || valid hs depth)) [
          | inl yes_ ↦ rw (verified, e, yes_) (asks depth)
          | inr no_ ↦ rw (verified, e, no_)
        ]
        | inr (x, e) ↦ rw (verified, e)
      ]

  -- Behind its dependency `open_pr` sends one pull request, just when the token has the scope, the
  -- repository is not on the deny-list, and the policy of Envoy, if it is required, is about this
  -- action on this repository with the delegation context of the write path.
  pub open_pr-requests :
      (owner repo : String) (body : OpenPr)
      → requests (open_pr cfg hs owner repo body w h).1 ≡ (
          if admitted resource_policy_valid
            && (contains (scopes w claims) cfg.pr_scope
                && not (contains cfg.deny_list repo)
                && (not cfg.require_envoy_policy
                    || headers_are_for hs "open-pr" (full_name owner repo)
                      && context_valid (some body.context)))
          then pr_request cfg owner repo body ∷ requests h'
          else requests h')
  unfolding open_pr require_token
  open_pr-requests owner repo body = behind_token resource_policy_valid _ _ _ _ λ depth.
      requests-guarded w h' _ _ _ _ _ (pr_guards-envoy cfg hs depth claims w h' owner repo body)
        (requests-request w h' _ _ (λ r h''. history-pr_reply w h'' _ r _ body))
      ∙ choose_ap _ _ (
          pr_conditions (contains (scopes w claims) cfg.pr_scope)
            (headers_are_for hs "open-pr" (full_name owner repo))
            (context_valid (some body.context)) (not (contains cfg.deny_list repo))
            (not cfg.require_envoy_policy))

  -- `push_file` likewise, for its own scope and action. It does not read the deny-list.
  pub push_file-requests :
      (owner repo : String) (body : Option ResourceContext)
      → requests (push_file cfg hs owner repo body w h).1 ≡ (
          if admitted resource_policy_valid
            && (contains (scopes w claims) cfg.write_scope
                && (not cfg.require_envoy_policy
                    || headers_are_for hs "push-file" (full_name owner repo) && context_valid body))
          then push_request cfg owner repo ("agent/feature-" <> w.token_hex h' 3) ∷ requests h'
          else requests h')
  unfolding push_file require_token
  push_file-requests owner repo body = behind_token resource_policy_valid _ _ _ _ λ depth.
      requests-guarded w h' _ _ _ _ _ (push_guards-envoy cfg hs depth claims w h' owner repo body) (
        requests-token w h' _ _ (λ token r h''.
          history-pushed_reply w h'' _ r _ ("agent/feature-" <> token) (full_name owner repo)))
      ∙ choose_ap _ _ (
          push_conditions (contains (scopes w claims) cfg.write_scope)
            (headers_are_for hs "push-file" (full_name owner repo)) (context_valid body)
            (not cfg.require_envoy_policy))

  -- `read_source` reads one file, just when the token has the read scope, the repository is not on
  -- the deny-list, and the policy of Envoy, if it is required, is about this repository.
  pub read_source-requests :
      (owner repo path : String)
      → requests (read_source cfg hs owner repo path w h).1 ≡ (
          if admitted source_read_policy_valid
            && (contains (scopes w claims) cfg.read_scope
                && not (contains cfg.deny_list repo)
                && (not cfg.require_envoy_policy
                    || opt_is hs.policy_repository (full_name owner repo)))
          then source_request cfg owner repo path ∷ requests h'
          else requests h')
  unfolding read_source require_source_read_token
  read_source-requests owner repo path = behind_token source_read_policy_valid _ _ _ _ λ depth.
      requests-guarded w h' _ _ _ _ _ (source_guards-envoy cfg hs depth claims w h' owner repo)
        (requests-request w h' _ _ (λ r h''. history-source_reply w h'' _ r _ _ path))
      ∙ choose_ap _ _ (
          source_conditions (contains (scopes w claims) cfg.read_scope)
            (not cfg.require_envoy_policy || opt_is hs.policy_repository (full_name owner repo))
            (not (contains cfg.deny_list repo)))

  -- `list_repos` lists the repositories just when the policy of Envoy is not required and the token
  -- has the read scope: the dependency wants an action of the write path, this handler its own.
  pub list_repos-requests : requests (list_repos cfg hs w h).1 ≡ (
      if admitted resource_policy_valid
        && (contains (scopes w claims) cfg.read_scope && not cfg.require_envoy_policy)
      then gitea_request cfg "repos/search?limit=50" ∷ requests h'
      else requests h')
  unfolding list_repos require_token
  list_repos-requests = behind_token resource_policy_valid _ _ _ _ λ depth.
      requests-guarded w h' _ _ _ _ _ (list_guards-envoy cfg hs depth claims w h')
        (requests-request w h' _ _ (λ r h''. history-repos_reply w h'' _ r))
      ∙ choose_ap _ _ (
          closed_conditions (contains (scopes w claims) cfg.read_scope)
            (headers_are_for hs "list-repos" "") (not cfg.require_envoy_policy))

  -- `create_repo` creates the repository just when the policy of Envoy is not required and the
  -- token has the write scope.
  pub create_repo-requests :
      (body : CreateRepo)
      → requests (create_repo cfg hs body w h).1 ≡ (
          if admitted resource_policy_valid
            && (contains (scopes w claims) cfg.write_scope && not cfg.require_envoy_policy)
          then create_request cfg body ∷ requests h'
          else requests h')
  unfolding create_repo require_token
  create_repo-requests body = behind_token resource_policy_valid _ _ _ _ λ depth.
      requests-guarded w h' _ _ _ _ _ (create_guards-envoy cfg hs depth claims w h')
        (requests-request w h' _ _ (λ r h''. history-created_reply w h'' _ r))
      ∙ choose_ap _ _ (
          closed_conditions (contains (scopes w claims) cfg.write_scope)
            (headers_are_for hs "create-repo" "") (not cfg.require_envoy_policy))
