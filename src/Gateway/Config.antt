-- ===== src/Gateway/Config.antt =====
-- The module constants of cross-domain-id-jag-vc/gitea-gateway/app.py.
use agent_identity_demos.Prelude.{String, ◌<>◌, Bool, List, [], ◌∷◌, map, contains, string_eq}
use agent_identity_demos.Prelude.Text.{rstrip_slash, split, strip, nonempty, lower}
use agent_identity_demos.Environ.{Environ, get_env}

pub record Config : Type 0 where
  pub issuer : String
  pub jwks_url : String
  pub gitea_url : String
  pub gitea_admin_user : String
  pub gitea_admin_password : String
  pub read_scope : String
  pub write_scope : String
  pub pr_scope : String
  pub require_envoy_policy : Bool
  pub deny_list : List String

unfoldable pub config : Environ → Config
unfolding get_env rstrip_slash split strip nonempty lower contains
config env =
    let keycloak_url = rstrip_slash (get_env env "KEYCLOAK_URL" "http://keycloak:8080") in
    let realm = get_env env "KEYCLOAK_REALM" "cncf-demo" in
    record {
      issuer = get_env env "KEYCLOAK_ISSUER" (keycloak_url <> ("/realms/" <> realm));
      jwks_url = keycloak_url <> ("/realms/" <> (realm <> "/protocol/openid-connect/certs"));
      gitea_url = rstrip_slash (get_env env "GITEA_URL" "http://gitea:3000");
      gitea_admin_user = get_env env "GITEA_ADMIN_USER" "demo-admin";
      gitea_admin_password = get_env env "GITEA_ADMIN_PASSWORD" "";
      read_scope = get_env env "GITEA_READ_SCOPE" "gitea:read";
      write_scope = get_env env "GITEA_WRITE_SCOPE" "gitea:write";
      pr_scope = get_env env "GITEA_PR_SCOPE" "gitea:pr";
      require_envoy_policy =
          contains ("1" ∷ "true" ∷ "yes" ∷ []) (lower (get_env env "REQUIRE_ENVOY_POLICY" "false"));
      deny_list =
          nonempty (map strip (split b',' (get_env env "GITEA_DENY_LIST" "demo-protected")));
    }

abbrev pub resource_policy_rule : String
resource_policy_rule = "org-b-resource-delegation"

abbrev pub resource_policy_actions : List String
resource_policy_actions = "push-file" ∷ "open-pr" ∷ []

abbrev pub source_read_policy_rule : String
source_read_policy_rule = "org-b-source-read"

abbrev pub source_read_actions : List String
source_read_actions = "read-source" ∷ []
