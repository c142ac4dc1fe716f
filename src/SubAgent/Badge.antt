-- ===== src/SubAgent/Badge.antt =====
-- The configuration, the request and `_verify_subbadge_sync` of
-- cross-domain-id-jag-vc/sub-agent/app.py.
use agent_identity_demos.Prelude.{
  String, ◌<>◌, Bool, true, false, not, some, List, [], ◌∷◌, subset, filter, string_eq, ◌==◌,
}
use agent_identity_demos.Prelude.Text.{rstrip_slash, sorted_set}
use agent_identity_demos.Value.{
  Value, Fields, str, arr, obj, nil, end, get, or_value, eq_str, eq_strs, strs,
}
use agent_identity_demos.Effects.{
  Exn, value_error, M, pure, lift, require, ◌>>=◌, ◌>>◌, as_dict, signing_key, jwt_decode,
  jwt_header, DecodeOptions,
}
use agent_identity_demos.Effects.Values.{text_at, as_text, value_contains}
use agent_identity_demos.Credential.{scope_words, difference}
use agent_identity_demos.Environ.{Environ, get_env}
use agent_identity_demos.Client.Vault.{VaultConfig, from_env}

pub record Config : Type 0 where
  pub kc_b_issuer : String
  pub sub_agent_client_id : String
  pub sub_agent_client_secret : String
  pub identity_node_url : String
  pub dir_apiserver_url : String
  pub gitea_gateway_url : String
  pub gitea_admin_user : String
  pub vault_cfg : VaultConfig

unfoldable pub config : Environ → Config
unfolding get_env rstrip_slash from_env
config env = record {
  kc_b_issuer =
      rstrip_slash (get_env env "KC_B_URL" "http://keycloak-b:8080")
      <> ("/realms/" <> get_env env "KC_B_REALM" "org-b");
  sub_agent_client_id = get_env env "SUB_AGENT_CLIENT_ID" "sub-agent";
  sub_agent_client_secret = get_env env "SUB_AGENT_CLIENT_SECRET" "";
  identity_node_url = rstrip_slash (get_env env "IDENTITY_NODE_URL" "http://identity-node:4000");
  dir_apiserver_url = get_env env "DIR_APISERVER_URL" "";
  gitea_gateway_url = rstrip_slash (get_env env "GITEA_GATEWAY_URL" "http://envoy-org-b:10001");
  gitea_admin_user = get_env env "GITEA_ADMIN_USER" "demo-admin";
  vault_cfg = from_env env;
}

abbrev pub token_endpoint : Config → String
token_endpoint cfg = cfg.kc_b_issuer <> "/protocol/openid-connect/token"

abbrev pub jwks_url : Config → String
jwks_url cfg = cfg.kc_b_issuer <> "/protocol/openid-connect/certs"

abbrev pub allowed_scopes : List String
allowed_scopes = "openid" ∷ "gitea:write" ∷ "gitea:pr" ∷ []

pub record RunRequest : Type 0 where
  pub sub_badge : String
  pub repo : String
  pub intent : String
  pub act_chain : List String
  pub ticket_id : String

-- `chain[:-1]`
unfoldable pub init : List String → List String
init [] = []
init (a ∷ []) = []
init (a ∷ b ∷ chain) = a ∷ init (b ∷ chain)

-- `chain and chain[-1] == agent`
unfoldable pub ends_at : String → List String → Bool
ends_at agent [] = false
ends_at agent (a ∷ []) = a == agent
ends_at agent (a ∷ b ∷ chain) = ends_at agent (b ∷ chain)

-- What the sub-badge must be decoded with.
abbrev pub badge_options : Config → DecodeOptions
badge_options cfg = record {
  algorithms = "RS256" ∷ [];
  audience = some cfg.kc_b_issuer;
  issuer = cfg.kc_b_issuer;
  required = "exp" ∷ "iat" ∷ "aud" ∷ "iss" ∷ "sub" ∷ [];
  verify_aud = true;
}

abbrev pub is_empty_list : List String → Bool
is_empty_list [] = true
is_empty_list (x ∷ xs) = false

abbrev chain_of : Fields → M Value
chain_of claims = do
  act ← as_dict (or_value (get "act" claims) (obj end))
  pure (or_value (get "act_chain" act) (arr nil))

-- `s in v`, and the error that is raised if it is not.
abbrev require_in : Value → String → Exn → M (Unit {0})
require_in v s e = do found ← lift (value_contains v s); require found e

-- The checks on the claims that were decoded, in their order.
unfoldable pub check_claims : Config → RunRequest → Fields → M (Unit {0})
unfolding sorted_set filter
check_claims cfg body claims = do
  target ← text_at (get "client_id" claims)
  require (eq_str (get "client_id" claims) cfg.sub_agent_client_id)
      (value_error ("sub-badge targets " <> (target <> (", not " <> cfg.sub_agent_client_id))))
  signed_chain ← chain_of claims
  require (ends_at cfg.sub_agent_client_id body.act_chain)
      (value_error "spawn act_chain does not end at this agent")
  signed ← text_at signed_chain
  expected ← text_at (arr (strs (init body.act_chain)))
  require (eq_strs signed_chain (init body.act_chain))
      (value_error ("act_chain mismatch: signed " <> (signed <> (" vs spawn " <> expected))))
  scope ← lift (as_text (or_value (get "scope" claims) (str "")))
  let granted = scope_words scope
  require (not (is_empty_list granted)) (value_error "sub-badge carries no scope")
  beyond ← text_at (arr (strs (sorted_set (difference granted allowed_scopes))))
  require (subset granted allowed_scopes)
      (value_error ("sub-badge grants scopes outside this agent's bound: " <> beyond))
  let resources = or_value (get "resource" claims) (arr nil)
  shown ← text_at resources
  _ ← require_in resources body.repo (
      value_error
        ("repo " <> (body.repo <> (" is not in the sub-badge's signed resource " <> shown))))
  require_in (or_value (get "intent" claims) (arr nil)) body.intent
      (value_error "spawn intent not present in the sub-badge's signed intent")

unfoldable pub verify_subbadge : Config → String → RunRequest → M Fields
verify_subbadge cfg token body = do
  header ← jwt_header token
  typ ← text_at (get "typ" header)
  require (eq_str (get "typ" header) "oauth-id-jag+jwt")
      (value_error ("not an ID-JAG assertion: typ=" <> typ))
  key ← signing_key (jwks_url cfg) token
  claims ← jwt_decode token key (badge_options cfg)
  _ ← check_claims cfg body claims
  pure claims
