-- ===== src/Gateway/Token.antt =====
-- `_verify_token`, `require_token` and `require_source_read_token`: what FastAPI runs before a
-- handler of cross-domain-id-jag-vc/gitea-gateway/app.py.
use agent_identity_demos.Prelude.{
  ℕ, String, ◌<>◌, Bool, false, ◌&&◌, ◌||◌, not, Option, none, some, List, [], ◌∷◌, ltb, ◌==◌,
  contains, nat_eq, string_eq, if◌then◌else◌,
}
use agent_identity_demos.Prelude.Text.{
  is_empty, split_once, strip, starts_with_lower, is_decimal, decimal_value, size,
}
use agent_identity_demos.Value.{Value, Fields, str, num, obj, end, field, set_item, opt_str}
use agent_identity_demos.Effects.{
  Exn, http_exception, value_error, Result, ok, err, M, pure, raise, lift, catch, require, ◌>>=◌,
  ◌>>◌, signing_key, jwt_decode, exn_text,
}
use agent_identity_demos.Gateway.Config.{
  Config, resource_policy_rule, resource_policy_actions, source_read_policy_rule,
  source_read_actions,
}

-- The headers that the dependencies read.
pub record Headers : Type 0 where
  pub authorization : Option String
  pub policy_decision : Option String
  pub policy_rule : Option String
  pub policy_enforcer : Option String
  pub policy_action : Option String
  pub policy_repository : Option String
  pub delegation_depth : Option String

-- The text behind "Bearer ", stripped; none where the header is missing or of another scheme.
unfoldable pub bearer_token : Option String → Option String
unfolding split_once strip starts_with_lower
bearer_token none = none
bearer_token (some a) =
    if not (is_empty a) && starts_with_lower a "bearer "
    then elim (split_once b' ' a).1 [ none ↦ none | some t ↦ some (strip t) ]
    else none

invalid_token : Exn → M Fields
invalid_token e w h = (err (http_exception 401 (str ("invalid token: " <> exn_text w e))), h)

check_bearer : Config → Option String → M Fields
unfolding invalid_token
check_bearer cfg none = raise (http_exception 401 (str "missing bearer token"))
check_bearer cfg (some token) =
    catch
      (do
        key ← signing_key cfg.jwks_url token
        jwt_decode token key (record {
          algorithms = "RS256" ∷ [];
          audience = none;
          issuer = cfg.issuer;
          required = [];
          verify_aud = false;
        }))
      invalid_token

unfoldable pub verify_token : Config → Option String → M Fields
unfolding check_bearer bearer_token
verify_token cfg authorization = check_bearer cfg (bearer_token authorization)

-- `int(delegation_depth)` if it is decimal, else 0. Python refuses to read more than 4300 digits.
unfoldable pub policy_depth : Option String → Result ℕ
policy_depth none = ok 0
policy_depth (some d) =
    if is_decimal d
    then if ltb 4300 (size d)
      then err (value_error "Exceeds the limit (4300 digits) for integer string conversion")
      else ok (decimal_value d)
    else ok 0

-- `header == s`, `header in ss` and `bool(header)`, where a missing header is `None`.
abbrev pub opt_is : Option String → String → Bool
opt_is none s = false
opt_is (some t) s = t == s

abbrev pub opt_in : Option String → List String → Bool
opt_in none ss = false
opt_in (some t) ss = contains ss t

abbrev pub opt_truthy : Option String → Bool
opt_truthy none = false
opt_truthy (some t) = not (is_empty t)

unfoldable pub resource_policy_valid : Headers → ℕ → Bool
resource_policy_valid hs depth =
    opt_is hs.policy_decision "ALLOW"
    && opt_is hs.policy_rule resource_policy_rule
    && opt_is hs.policy_enforcer "built-on-envoy-opa"
    && opt_in hs.policy_action resource_policy_actions
    && opt_truthy hs.policy_repository
    && depth == 2

unfoldable pub source_read_policy_valid : Headers → ℕ → Bool
source_read_policy_valid hs depth =
    opt_is hs.policy_decision "ALLOW"
    && opt_is hs.policy_rule source_read_policy_rule
    && opt_is hs.policy_enforcer "built-on-envoy-opa"
    && opt_in hs.policy_action source_read_actions
    && opt_truthy hs.policy_repository
    && depth == 1

abbrev pub forbidden : Fields → Exn
forbidden detail = http_exception 403 (obj detail)

abbrev pub envoy_policy_required : String → Exn
envoy_policy_required message =
    forbidden (field "error" (str "envoy_policy_required") (field "message" (str message) end))

-- The dict that is stored under "_envoy_policy".
abbrev pub envoy_policy : Headers → ℕ → Value
envoy_policy hs depth = obj (
    field "decision" (opt_str hs.policy_decision) (
      field "rule" (opt_str hs.policy_rule) (
        field "enforced_by" (opt_str hs.policy_enforcer) (
          field "action" (opt_str hs.policy_action) (
            field "repository" (opt_str hs.policy_repository)
              (field "delegation_depth" (num depth) end))))))

-- The body that both dependencies have: the token, the depth, and the policy if it is required.
unfoldable pub checked_token : Config → Headers → (Headers → ℕ → Bool) → String → M Fields
checked_token cfg hs valid message = do
  claims ← verify_token cfg hs.authorization
  depth ← lift (policy_depth hs.delegation_depth)
  require (not cfg.require_envoy_policy || valid hs depth) (envoy_policy_required message)
  pure (set_item "_envoy_policy" (envoy_policy hs depth) claims)

unfoldable pub require_token : Config → Headers → M Fields
require_token cfg hs =
    checked_token cfg hs resource_policy_valid
      "resource requests must pass the Org B Envoy policy gateway"

unfoldable pub require_source_read_token : Config → Headers → M Fields
require_source_read_token cfg hs =
    checked_token cfg hs source_read_policy_valid
      "source reads must pass the Org B Envoy policy gateway"
