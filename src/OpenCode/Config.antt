-- ===== src/OpenCode/Config.antt =====
-- The configuration and the request of cross-domain-id-jag-vc/opencode-agent/app.py.
use agent_identity_demos.Prelude.{
  true, String, ◌<>◌, Bool, Option, none, some, List, [], ◌∷◌, if◌then◌else◌,
}
use agent_identity_demos.Prelude.Text.{is_empty, rstrip_slash, split_once}
use agent_identity_demos.Environ.{Environ, get_env}
use agent_identity_demos.Client.Vault.{VaultConfig, from_env}

-- `float(OPENCODE_TIMEOUT)` only bounds how long a call waits, and is left out.
pub record Config : Type 0 where
  pub kc_a_token_ep : String
  pub kc_b_token_ep : String
  pub kc_b_issuer : String
  pub opencode_client_id : String
  pub opencode_client_secret : String
  pub triage_client_id : String
  pub triage_client_secret : String
  pub sarah_user : String
  pub sarah_password : String
  pub sarah_email : String
  pub identity_node_url : String
  pub egress_pdp_url : String
  pub triage_agent_url : String
  pub dir_apiserver_url : String
  pub scan_repo : String
  pub gitea_resource_url : String
  pub scan_source_path : String
  pub opencode_server_url : String
  pub opencode_model : String
  pub llm_base_url : String
  pub llm_api_key : String
  pub vault_cfg : VaultConfig

abbrev realm_url : String → String → String
realm_url keycloak realm = rstrip_slash keycloak <> ("/realms/" <> realm)

abbrev or_text : String → String → String
or_text s t = if is_empty s then t else s

unfoldable pub config : Environ → Config
unfolding get_env rstrip_slash from_env
config env =
    let realm_a =
      realm_url (get_env env "KC_A_URL" "http://keycloak-a:8080")
        (get_env env "KC_A_REALM" "org-a") in
    let realm_b =
      realm_url (get_env env "KC_B_URL" "http://keycloak-b:8080")
        (get_env env "KC_B_REALM" "org-b") in
    let ollama =
      rstrip_slash (get_env env "OLLAMA_BASE_URL" "http://host.docker.internal:11434/v1") in
    record {
      kc_a_token_ep = realm_a <> "/protocol/openid-connect/token";
      kc_b_token_ep = realm_b <> "/protocol/openid-connect/token";
      kc_b_issuer = realm_b;
      opencode_client_id = get_env env "OPENCODE_CLIENT_ID" "opencode-agent";
      opencode_client_secret = get_env env "OPENCODE_CLIENT_SECRET" "";
      triage_client_id = get_env env "TRIAGE_CLIENT_ID" "triage-agent";
      triage_client_secret = get_env env "TRIAGE_CLIENT_SECRET" "";
      sarah_user = get_env env "SARAH_USER" "sarah";
      sarah_password = get_env env "SARAH_PASSWORD" "";
      sarah_email = get_env env "SARAH_EMAIL" "sarah@org-a.example";
      identity_node_url =
          rstrip_slash (get_env env "IDENTITY_NODE_URL" "http://identity-node:4000");
      egress_pdp_url = rstrip_slash (get_env env "EGRESS_PDP_URL" "http://envoy-org-a:12000");
      triage_agent_url = rstrip_slash (get_env env "TRIAGE_AGENT_URL" "http://envoy-org-b:10000");
      dir_apiserver_url = get_env env "DIR_APISERVER_URL" "";
      scan_repo = get_env env "SCAN_REPO" "demo-admin/payments-service";
      gitea_resource_url =
          rstrip_slash (get_env env "GITEA_RESOURCE_URL" "http://envoy-org-b:10001");
      scan_source_path =
          get_env env "SCAN_SOURCE_PATH"
            "src/main/java/com/example/payments/PaymentLookupRepository.java";
      opencode_server_url =
          rstrip_slash (get_env env "OPENCODE_SERVER_URL" "http://opencode-server:4096");
      opencode_model = get_env env "OPENCODE_MODEL" "ollama/qwen2.5-coder:7b";
      llm_base_url = rstrip_slash (or_text (get_env env "LLM_BASE_URL" "") ollama);
      llm_api_key = get_env env "LLM_API_KEY" "";
      vault_cfg = from_env env;
    }

abbrev pub builtin_providers : List String
builtin_providers =
    "anthropic" ∷ "openai" ∷ "azure" ∷ "google" ∷ "vertex" ∷ "bedrock" ∷ "openrouter" ∷ "groq"
    ∷ "mistral" ∷ "deepseek" ∷ "xai" ∷ []

-- The body of `/api/run`, where it has one.
pub record RunRequest : Type 0 where
  pub repo : String
  pub cve_override : String
  pub use_real_opencode : Bool

abbrev parts_of : String → String × Option String → String × String
parts_of model (provider, none) = (provider, model)
parts_of model (provider, some id) = (provider, or_text id model)

-- `_model_parts`: the provider, and the model behind the first slash or else all of it.
unfoldable pub model_parts : Config → String × String
unfolding split_once
model_parts cfg = parts_of cfg.opencode_model (split_once b'/' cfg.opencode_model)

-- `_llm_headers`
unfoldable pub llm_headers : Config → List (String × String)
llm_headers cfg =
    if is_empty cfg.llm_api_key then [] else ("Authorization", "Bearer " <> cfg.llm_api_key) ∷ []

unfoldable pub repo_of : Config → Option RunRequest → String
repo_of cfg none = cfg.scan_repo
repo_of cfg (some body) = or_text body.repo cfg.scan_repo

unfoldable pub cve_of : Option RunRequest → String
cve_of none = "CVE-2024-XXXX"
cve_of (some body) = or_text body.cve_override "CVE-2024-XXXX"

unfoldable pub use_real_of : Option RunRequest → Bool
use_real_of none = true
use_real_of (some body) = body.use_real_opencode
