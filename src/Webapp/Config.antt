-- ===== src/Webapp/Config.antt =====
-- The configuration of cross-domain-id-jag-vc/webapp/app.py, and `config`, which shows it.
use agent_identity_demos.Prelude.{String, ◌<>◌, if◌then◌else◌}
use agent_identity_demos.Prelude.Text.{is_empty, rstrip_slash}
use agent_identity_demos.Value.{Value, str, obj, end, field}
use agent_identity_demos.Environ.{Environ, get_env}
use agent_identity_demos.Client.Vault.{VaultConfig, from_env}

pub record Config : Type 0 where
  pub kc_a_url : String
  pub kc_a_realm : String
  pub kc_b_url : String
  pub kc_b_realm : String
  pub opencode_client_id : String
  pub triage_client_id : String
  pub sub_agent_client_id : String
  pub sarah_user : String
  pub sarah_email : String
  pub identity_node_url : String
  pub triage_agent_url : String
  pub dir_apiserver_url : String
  pub egress_pdp_url : String
  pub jaeger_ui_url : String
  pub opencode_agent_url : String
  pub opencode_model : String
  pub gitea_ui_url : String
  pub gitea_admin_user : String
  pub kc_a_ui_url : String
  pub kc_b_ui_url : String
  pub vault_cfg : VaultConfig
  pub scan_repo : String

unfoldable pub config_of : Environ → Config
unfolding get_env rstrip_slash from_env
config_of env = record {
  kc_a_url = rstrip_slash (get_env env "KC_A_URL" "http://keycloak-a:8080");
  kc_a_realm = get_env env "KC_A_REALM" "org-a";
  kc_b_url = rstrip_slash (get_env env "KC_B_URL" "http://keycloak-b:8080");
  kc_b_realm = get_env env "KC_B_REALM" "org-b";
  opencode_client_id = get_env env "OPENCODE_CLIENT_ID" "opencode-agent";
  triage_client_id = get_env env "TRIAGE_CLIENT_ID" "triage-agent";
  sub_agent_client_id = get_env env "SUB_AGENT_CLIENT_ID" "sub-agent";
  sarah_user = get_env env "SARAH_USER" "sarah";
  sarah_email = get_env env "SARAH_EMAIL" "sarah@org-a.example";
  identity_node_url = rstrip_slash (get_env env "IDENTITY_NODE_URL" "http://identity-node:4000");
  triage_agent_url = rstrip_slash (get_env env "TRIAGE_AGENT_URL" "http://envoy-org-b:10000");
  dir_apiserver_url = get_env env "DIR_APISERVER_URL" "";
  egress_pdp_url = rstrip_slash (get_env env "EGRESS_PDP_URL" "http://envoy-org-a:12000");
  jaeger_ui_url = get_env env "JAEGER_UI_URL" "";
  opencode_agent_url = rstrip_slash (get_env env "OPENCODE_AGENT_URL" "http://opencode-agent:8100");
  opencode_model = get_env env "OPENCODE_MODEL" "ollama/qwen2.5-coder:7b";
  gitea_ui_url = get_env env "GITEA_UI_URL" "";
  gitea_admin_user = get_env env "GITEA_ADMIN_USER" "demo-admin";
  kc_a_ui_url = get_env env "KC_A_UI_URL" "";
  kc_b_ui_url = get_env env "KC_B_UI_URL" "";
  vault_cfg = from_env env;
  scan_repo = get_env env "SCAN_REPO" "demo-admin/payments-service";
}

-- `f"{KC_A_URL}/realms/{KC_A_REALM}"`
abbrev issuer_of : String → String → String
issuer_of url realm = url <> ("/realms/" <> realm)

abbrev or_unset : String → String
or_unset url = if is_empty url then "not configured" else url

unfoldable pub config : Config → Value
config cfg = obj (
    field "kc_a_url" (str cfg.kc_a_url) (
      field "kc_a_realm" (str cfg.kc_a_realm) (
        field "kc_a_issuer" (str (issuer_of cfg.kc_a_url cfg.kc_a_realm)) (
          field "kc_b_url" (str cfg.kc_b_url) (
            field "kc_b_realm" (str cfg.kc_b_realm) (
              field "kc_b_issuer" (str (issuer_of cfg.kc_b_url cfg.kc_b_realm)) (
                field "opencode_client_id" (str cfg.opencode_client_id) (
                  field "triage_client_id" (str cfg.triage_client_id) (
                    field "sarah_user" (str cfg.sarah_user) (
                      field "sarah_email" (str cfg.sarah_email) (
                        field "opencode_agent_url" (str cfg.opencode_agent_url) (
                          field "opencode_model" (str cfg.opencode_model) (
                            field "identity_node_url" (str cfg.identity_node_url) (
                              field "egress_pdp_url" (str cfg.egress_pdp_url) (
                                field "triage_agent_url" (str cfg.triage_agent_url) (
                                  field "dir_apiserver_url" (str (or_unset cfg.dir_apiserver_url)) (
                                    field "org_a_common_name" (str cfg.vault_cfg.common_name) (
                                      field "vault_key_name" (str cfg.vault_cfg.key_name) (
                                        field "scan_repo" (str cfg.scan_repo) (
                                          field "jaeger_ui_url" (str cfg.jaeger_ui_url) (
                                            field "gitea_ui_url" (str cfg.gitea_ui_url) (
                                              field "gitea_admin_user" (str cfg.gitea_admin_user) (
                                                field "kc_a_ui_url" (str cfg.kc_a_ui_url) (
                                                  field "kc_b_ui_url" (str cfg.kc_b_ui_url)
                                                    end))))))))))))))))))))))))
