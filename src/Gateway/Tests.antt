-- ===== src/Gateway/Tests.antt =====
-- Runs of the gateway of cross-domain-id-jag-vc/gitea-gateway/app.py.
use agent_identity_demos.Prelude.{
  String, ◌≡◌, refl, false, none, some, [], ◌∷◌, contains, string_eq, nat_eq, list_eq, ◌⊎◌,
}
use agent_identity_demos.Prelude.Text
use agent_identity_demos.Value.{Value, Fields, str, obj, end, field, get_default}
use agent_identity_demos.Effects.{
  Exn, http_exception, ok, err, World, History, fetched_key, requests, signing_key, jwt_decode,
  ◌>>=◌,
}
use agent_identity_demos.Gateway.Config.{Config}
use agent_identity_demos.Gateway.Token.{
  Headers, bearer_token, verify_token, policy_depth, resource_policy_valid,
  source_read_policy_valid,
}
use agent_identity_demos.Gateway.Policy.{scopes}
use agent_identity_demos.Gateway.Routes.{
  pr_request, push_request, create_request, create_repo, list_repos, push_file, open_pr,
  read_source, source_request, gitea_request,
}
use agent_identity_demos.Gateway.Verified
use agent_identity_demos.Gateway.Authorised
use agent_identity_demos.Fixtures.{
  answer, world_of, gateway_claims, gateway_config, pr_headers, context, pr_body, repo_body,
}

abbrev world : World
world = world_of (answer 201 (obj end)) gateway_claims

abbrev after : History
after = fetched_key "http://kc/certs" "t" ∷ []

-- The same caller with other claims, or with other headers.
abbrev read_claims : Fields
read_claims = field "scope" (str "gitea:read") end

abbrev read_world : World
read_world = world_of (answer 200 (obj end)) read_claims

abbrev push_headers : Headers
push_headers = record pr_headers { policy_action = some "push-file" }

abbrev read_headers : Headers
read_headers = record pr_headers {
  policy_rule = some "org-b-source-read";
  policy_action = some "read-source";
  delegation_depth = some "1";
}

abbrev open_config : Config
open_config = record gateway_config { require_envoy_policy = false }

abbrev no_headers : Headers
no_headers = record pr_headers { authorization = none }

verified :
    verify_token gateway_config pr_headers.authorization world [] ≡ (ok gateway_claims, after)
unfolding verify_token signing_key jwt_decode ◌>>=◌ bearer_token nat_eq
verified = refl

read_verified :
    verify_token gateway_config read_headers.authorization read_world [] ≡ (ok read_claims, after)
unfolding verify_token signing_key jwt_decode ◌>>=◌ bearer_token nat_eq
read_verified = refl

open_verified :
    verify_token open_config pr_headers.authorization world [] ≡ (ok gateway_claims, after)
unfolding verify_token signing_key jwt_decode ◌>>=◌ bearer_token nat_eq
open_verified = refl

open_read_verified :
    verify_token open_config pr_headers.authorization read_world [] ≡ (ok read_claims, after)
unfolding verify_token signing_key jwt_decode ◌>>=◌ bearer_token nat_eq
open_read_verified = refl

abbrev missing_token : Exn
missing_token = http_exception 401 (str "missing bearer token")

no_token : verify_token gateway_config no_headers.authorization world [] ≡ (err missing_token, [])
unfolding verify_token ◌>>=◌ bearer_token
no_token = refl

verify_token-cases_example :
    ((token : String) × (key : String) × (claims : Fields) × Verified.Accepted gateway_config
        (some "Bearer t")
        world
        []
        token
        key
        claims)
    ⊎ ((message : Value) × (h' : History) × (verify_token gateway_config (some "Bearer t") world []
          ≡ (err (http_exception 401 message), h')))
verify_token-cases_example = Verified.verify_token-cases gateway_config (some "Bearer t") world []

handlers-refused_example :
    (list_repos gateway_config no_headers world [] ≡ (err missing_token, []))
    × (create_repo gateway_config no_headers repo_body world [] ≡ (err missing_token, []))
    × (read_source gateway_config no_headers "o" "r" "p" world [] ≡ (err missing_token, []))
    × (push_file gateway_config no_headers "o" "r" (some context) world []
        ≡ (err missing_token, []))
    × (open_pr gateway_config no_headers "o" "r" pr_body world [] ≡ (err missing_token, []))
handlers-refused_example =
    Verified.handlers-refused gateway_config no_headers world [] [] missing_token no_token "o" "r"
      "p" (some context) pr_body repo_body

open_pr-requests_example :
    requests (open_pr gateway_config pr_headers "demo-admin" "payments" pr_body world []).1
    ≡ pr_request gateway_config "demo-admin" "payments" pr_body ∷ []
unfolding policy_depth Text.is_decimal Text.size resource_policy_valid string_eq contains nat_eq
    Text.decimal_value scopes Text.words get_default list_eq Text.starts_with requests
open_pr-requests_example =
    Authorised.open_pr-requests gateway_config pr_headers world [] after gateway_claims verified
      "demo-admin" "payments" pr_body

push_file-requests_example :
    requests
      (push_file gateway_config push_headers "demo-admin" "payments" (some context) world []).1
    ≡ push_request gateway_config "demo-admin" "payments" "agent/feature-abc123" ∷ []
unfolding policy_depth Text.is_decimal Text.size resource_policy_valid string_eq contains nat_eq
    Text.decimal_value scopes Text.words get_default list_eq Text.starts_with requests
push_file-requests_example =
    Authorised.push_file-requests gateway_config push_headers world [] after gateway_claims verified
      "demo-admin" "payments" (some context)

read_source-requests_example :
    requests
      (read_source gateway_config read_headers "demo-admin" "payments" "a.py" read_world []).1
    ≡ source_request gateway_config "demo-admin" "payments" "a.py" ∷ []
unfolding policy_depth Text.is_decimal Text.size source_read_policy_valid string_eq contains nat_eq
    Text.decimal_value scopes Text.words get_default requests
read_source-requests_example =
    Authorised.read_source-requests gateway_config read_headers read_world [] after read_claims
      read_verified "demo-admin" "payments" "a.py"

list_repos-requests_example :
    requests (list_repos open_config pr_headers read_world []).1
    ≡ gitea_request open_config "repos/search?limit=50" ∷ []
unfolding policy_depth Text.is_decimal Text.size string_eq contains Text.decimal_value scopes
    Text.words get_default requests nat_eq
list_repos-requests_example =
    Authorised.list_repos-requests open_config pr_headers read_world [] after read_claims
      open_read_verified

create_repo-requests_example :
    requests (create_repo open_config pr_headers repo_body world []).1
    ≡ create_request open_config repo_body ∷ []
unfolding policy_depth Text.is_decimal Text.size string_eq contains Text.decimal_value scopes
    Text.words get_default requests nat_eq
create_repo-requests_example =
    Authorised.create_repo-requests open_config pr_headers world [] after gateway_claims
      open_verified repo_body
