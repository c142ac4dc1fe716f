-- ===== src/Triage/Ticket.antt =====
-- The configuration, the ticket and `_verify_idjag_sync` of
-- cross-domain-id-jag-vc/triage-agent/app.py.
use agent_identity_demos.Prelude.{String, ◌<>◌, true, ◌∷◌, some, List, [], contains, string_eq}
use agent_identity_demos.Prelude.Text.{rstrip_slash, split}
use agent_identity_demos.Value.{Fields, str, arr, obj, nil, end, get, or_value, eq_str, eq_strs}
use agent_identity_demos.Effects.{
  value_error, M, pure, lift, require, ◌>>=◌, ◌>>◌, as_dict, signing_key, jwt_decode, DecodeOptions,
}
use agent_identity_demos.Effects.Values.{text_at, as_text, value_contains}
use agent_identity_demos.Environ.{Environ, get_env}
use agent_identity_demos.Client.Vault.{VaultConfig, from_env}

pub record Config : Type 0 where
  pub kc_a_issuer : String
  pub kc_b_issuer : String
  pub triage_client_id : String
  pub triage_client_secret : String
  pub sub_agent_client_id : String
  pub identity_node_url : String
  pub dir_apiserver_url : String
  pub sub_agent_url : String
  pub subbadge_pdp_url : String
  pub vault_cfg : VaultConfig

abbrev realm_url : String → String → String
realm_url keycloak realm = rstrip_slash keycloak <> ("/realms/" <> realm)

unfoldable pub config : Environ → Config
unfolding get_env rstrip_slash from_env
config env = record {
  kc_a_issuer =
      realm_url (get_env env "KC_A_URL" "http://keycloak-a:8080")
        (get_env env "KC_A_REALM" "org-a");
  kc_b_issuer =
      realm_url (get_env env "KC_B_URL" "http://keycloak-b:8080")
        (get_env env "KC_B_REALM" "org-b");
  triage_client_id = get_env env "TRIAGE_CLIENT_ID" "triage-agent";
  triage_client_secret = get_env env "TRIAGE_CLIENT_SECRET" "";
  sub_agent_client_id = get_env env "SUB_AGENT_CLIENT_ID" "sub-agent";
  identity_node_url = rstrip_slash (get_env env "IDENTITY_NODE_URL" "http://identity-node:4000");
  dir_apiserver_url = get_env env "DIR_APISERVER_URL" "";
  sub_agent_url = rstrip_slash (get_env env "SUB_AGENT_URL" "http://sub-agent:8300");
  subbadge_pdp_url = rstrip_slash (get_env env "SUBBADGE_PDP_URL" "http://envoy-org-b:10000");
  vault_cfg = from_env env;
}

abbrev pub jwks_url : Config → String
jwks_url cfg = cfg.kc_a_issuer <> "/protocol/openid-connect/certs"

pub record TicketRequest : Type 0 where
  pub cve : String
  pub severity : String
  pub repo : String
  pub intent : String
  pub delegating_agent : String
  pub act_chain : List String
  pub plan : String

abbrev pub idjag_options : Config → DecodeOptions
idjag_options cfg = record {
  algorithms = "RS256" ∷ [];
  audience = some cfg.kc_b_issuer;
  issuer = cfg.kc_a_issuer;
  required = "exp" ∷ "iat" ∷ "aud" ∷ "iss" ∷ "sub" ∷ [];
  verify_aud = true;
}

-- The checks on the claims that were decoded, in their order.
unfoldable pub check_ticket : TicketRequest → Fields → M (Unit {0})
unfolding split
check_ticket body claims = do
  subject ← text_at (get "sub" claims)
  require (eq_str (get "sub" claims) "sarah@org-a.example")
      (value_error ("unexpected delegating subject: " <> subject))
  act ← as_dict (or_value (get "act" claims) (obj end))
  require (eq_strs (get "act_chain" act) body.act_chain)
      (value_error "act_chain mismatch between ticket body and signed ID-JAG")
  named ← lift (value_contains (or_value (get "intent" claims) (arr nil)) body.intent)
  require named (value_error "ticket intent not present in signed ID-JAG intent")
  scope ← lift (as_text (or_value (get "scope" claims) (str "")))
  require (contains (split b' ' scope) "triage:create")
      (value_error "ID-JAG scope does not include triage:create")

unfoldable pub verify_idjag : Config → String → TicketRequest → M Fields
verify_idjag cfg token body = do
  key ← signing_key (jwks_url cfg) token
  claims ← jwt_decode token key (idjag_options cfg)
  _ ← check_ticket body claims
  pure claims
