-- ===== src/Fixtures.antt =====
-- Data for the tests: a world where every call succeeds, a configuration and headers.
use agent_identity_demos.Prelude.{false, String, List, ℕ, true, some, [], ◌∷◌}
use agent_identity_demos.Value.{Value, Fields, str, bool, arr, obj, nil, cons, end, field, strs}
use agent_identity_demos.Effects.{served, Event, cached, World, ok, Response}
use agent_identity_demos.Client.Vault.{VaultConfig}
use agent_identity_demos.SubAgent.Badge
use agent_identity_demos.Gateway.Config.{Config}
use agent_identity_demos.Gateway.Token.{Headers}
use agent_identity_demos.Gateway.Policy.{ResourceContext}
use agent_identity_demos.Gateway.Routes.{OpenPr, CreateRepo}

abbrev pub answer : ℕ → Value → Response
answer status payload = record {
  status_code = status;
  text = "";
  headers = [];
  json = some payload;
}

-- The world that answers every request by `r` and decodes every token to `claims`.
abbrev pub world_of : Response → Fields → World
world_of r claims = record {
  send = λ h q. ok r;
  time = λ h. 1000;
  uuid4 = λ h. "id";
  token_hex = λ h n. "abc123";
  signing_key = λ h url token. ok "key";
  jwt_header = λ token. ok (field "typ" (str "oauth-id-jag+jwt") end);
  jwt_decode = λ h token key o. ok claims;
  dir_push = λ h url v. ok ("cid" ∷ []);
  dir_push_all = λ h url vs. ok [];
  dir_ping = λ h url. served;
  dir_search = λ h url name limit. ok [];
  loads = λ bytes. some (obj end);
  mktime = λ s. ok 2000;
  repr = λ v. "";
  exn_text = λ e. "failed";
  undecodable = λ r. false;
  utf8_replace = λ bytes. "";
}

abbrev pub gateway_claims : Fields
gateway_claims = field "sub" (str "u1") (field "scope" (str "openid gitea:write gitea:pr") end)

abbrev pub gateway_config : Config
gateway_config = record {
  issuer = "http://kc/realms/b";
  jwks_url = "http://kc/certs";
  gitea_url = "http://gitea";
  gitea_admin_user = "admin";
  gitea_admin_password = "pw";
  read_scope = "gitea:read";
  write_scope = "gitea:write";
  pr_scope = "gitea:pr";
  require_envoy_policy = true;
  deny_list = "demo-protected" ∷ [];
}

abbrev pub pr_headers : Headers
pr_headers = record {
  authorization = some "Bearer t";
  policy_decision = some "ALLOW";
  policy_rule = some "org-b-resource-delegation";
  policy_enforcer = some "built-on-envoy-opa";
  policy_action = some "open-pr";
  policy_repository = some "demo-admin/payments";
  delegation_depth = some "2";
}

abbrev pub context : ResourceContext
context = record {
  intent = "create-pr-fix";
  act_chain = "opencode-agent" ∷ "triage-agent" ∷ "sub-agent" ∷ [];
  ticket_id = "TRIAGE-1";
}

abbrev pub pr_body : OpenPr
pr_body = record { context = context; head = "fix"; base = "main"; title = "a fix" }

abbrev pub repo_body : CreateRepo
repo_body = record { name = "r"; description = ""; private = true }

-- The sub-agent and its caller.
abbrev pub vault_config : VaultConfig
vault_config = record {
  vault_addr = "http://vault";
  vault_token = "token";
  key_name = "org-b-issuer";
  common_name = "org-b";
}

abbrev pub sub_agent_config : Badge.Config
sub_agent_config = record {
  kc_b_issuer = "http://kc/realms/org-b";
  sub_agent_client_id = "sub-agent";
  sub_agent_client_secret = "secret";
  identity_node_url = "http://node";
  dir_apiserver_url = "";
  gitea_gateway_url = "http://gateway";
  gitea_admin_user = "demo-admin";
  vault_cfg = vault_config;
}

abbrev pub run_request : Badge.RunRequest
run_request = record {
  sub_badge = "h.p.s";
  repo = "demo-admin/payments";
  intent = "create-pr-fix";
  act_chain = "opencode-agent" ∷ "triage-agent" ∷ "sub-agent" ∷ [];
  ticket_id = "TRIAGE-1";
}

abbrev parent_chain : Value
parent_chain = arr (strs ("opencode-agent" ∷ "triage-agent" ∷ []))

abbrev pub badge_claims : String → Fields
badge_claims client = field "client_id" (str client) (
    field "act" (obj (field "act_chain" parent_chain end)) (
      field "scope" (str "gitea:write gitea:pr") (
        field "resource" (arr (strs ("demo-admin/payments" ∷ [])))
          (field "intent" (arr (strs ("create-pr-fix" ∷ []))) end))))

-- The credential of an agent that holds no scope and delegates two.
abbrev pub credential_of : String → Value
credential_of id = obj (
    field "credentialSubject"
      (obj (
        field "id" (str id) (
          field "act_chain" parent_chain (
            field "delegating_user" (str "sarah") (
              field "intent" (str "triage")
                (field "delegatable" (arr (strs ("gitea:write" ∷ "gitea:pr" ∷ []))) end))))))
      end)

-- One answer that Vault, the Identity Node and Keycloak could all give.
abbrev pub everything : Value
everything = obj (
    field "data" (obj (field "signature" (str "vault:v1:QUJD") end)) (
      field "resolverMetadata" (obj (field "id" (str "AGNTCY-sub-agent") end)) (
        field "vcs" (arr (cons (obj (field "value" (str "h.e30.s") end)) nil))
          (field "status" (bool true) (field "access_token" (str "a.e30.s") end)))))

abbrev pub agent_world : String → String → World
agent_world client credential = record (world_of (answer 200 everything) (badge_claims client)) {
  loads = λ bytes. some (credential_of credential);
}

-- The events after Vault's key was fetched once.
abbrev pub key_cached : List Event
key_cached = cached "http://vault" "org-b-issuer" (field "kid" (str "org-b-issuer-v1") end) ∷ []
