-- ===== src/Gateway/Policy.antt =====
-- `_scopes`, `require_scope` and `require_policy_context` of
-- cross-domain-id-jag-vc/gitea-gateway/app.py, with the request bodies that they read.
use agent_identity_demos.Prelude.{
  String, ◌<>◌, Bool, false, ◌&&◌, Option, none, some, List, [], ◌∷◌, contains, list_eq, ◌==◌,
  string_eq, if◌then◌else◌,
}
use agent_identity_demos.Prelude.Text.{words, starts_with, sorted_set}
use agent_identity_demos.Value.{
  Value, Fields, str, arr, obj, end, field, get, get_default, eq_str, strs,
}
use agent_identity_demos.Effects.{Exn, World, M, pure, require, ◌>>=◌, ◌>>◌, as_dict}
use agent_identity_demos.Effects.Values.{text_of}
use agent_identity_demos.Gateway.Config.{Config}
use agent_identity_demos.Gateway.Token.{forbidden}

-- `_scopes(claims)`; membership is all that is asked of the set.
unfoldable pub scopes : World → Fields → List String
scopes w claims = words (text_of w (get_default "scope" (str "") claims))

abbrev pub insufficient_scope : String → List String → Exn
insufficient_scope needed granted = forbidden (
    field "error" (str "insufficient_scope") (
      field "required" (str needed) (
        field "granted" (arr (strs (sorted_set granted)))
          (field "message" (str ("token is missing the '" <> (needed <> "' scope"))) end))))

unfoldable pub require_scope : Fields → String → M (Unit {0})
require_scope claims needed w =
    require (contains (scopes w claims) needed) (insufficient_scope needed (scopes w claims)) w

pub record ResourceContext : Type 0 where
  pub intent : String
  pub act_chain : List String
  pub ticket_id : String

abbrev pub write_chain : List String
write_chain = "opencode-agent" ∷ "triage-agent" ∷ "sub-agent" ∷ []

abbrev pub context_valid : Option ResourceContext → Bool
context_valid none = false
context_valid (some c) =
    c.intent == "create-pr-fix"
    && list_eq c.act_chain write_chain
    && starts_with c.ticket_id "TRIAGE-"

abbrev pub context_mismatch : String → String → Exn
context_mismatch action repository = forbidden (
    field "error" (str "envoy_policy_context_mismatch")
      (field "expected_action" (str action) (field "expected_repository" (str repository) end)))

abbrev pub invalid_context : Exn
invalid_context = forbidden (
    field "error" (str "invalid_delegation_context")
      (field "message" (str "intent, act-chain, or ticket binding is invalid") end))

-- The test that the policy of Envoy is about this action on this repository.
abbrev pub policy_is_for : Fields → String → String → Bool
policy_is_for policy action repository =
    eq_str (get "action" policy) action && eq_str (get "repository" policy) repository

unfoldable pub check_context : Fields → String → String → Option ResourceContext → M Value
check_context policy action repository context = do
  require (policy_is_for policy action repository) (context_mismatch action repository)
  require (context_valid context) invalid_context
  pure (obj policy)

unfoldable pub require_policy_context :
    Config → Fields → String → String → Option ResourceContext → M Value
require_policy_context cfg claims action repository context = do
  let policy = get_default "_envoy_policy" (obj end) claims
  if cfg.require_envoy_policy
      then (do fields ← as_dict policy; check_context fields action repository context)
      else pure policy
