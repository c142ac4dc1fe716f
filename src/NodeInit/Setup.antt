-- ===== src/NodeInit/Setup.antt =====
-- The configuration, `_request`, `_vault`, `wait_for` and the probes of
-- cross-domain-id-jag-vc/identity-node-init.py. What it prints is left out, and so are the headers
-- that urllib adds.
use agent_identity_demos.Prelude.{
  ℕ, String, ◌<>◌, Bool, true, false, ◌||◌, Option, none, some, List, [], ◌∷◌, ◌==◌, nat_eq,
  if◌then◌else◌,
}
use agent_identity_demos.Prelude.Text.{is_empty, rstrip_slash, split, split_once}
use agent_identity_demos.Value.{Value, obj, end}
use agent_identity_demos.Effects.{
  foreign, Result, ok, err, M, pure, raise, attempt, ◌>>=◌, Request, Response, Method, http_get,
  Body, no_body, request, json, sleep,
}
use agent_identity_demos.Environ.{Environ, get_env}
use agent_identity_demos.Poll.{poll}

pub record Config : Type 0 where
  pub identity_node_url : String
  pub vault_addr : String
  pub vault_token : String
  pub issuers : List (String × String)

abbrev or_text : String → String → String
or_text s t = if is_empty s then t else s

-- `_LEGACY`, which only an absent `ISSUERS` lets in.
legacy_issuers : Environ → String
legacy_issuers env = elim (env "ISSUERS") [
  | some v ↦ ""
  | none ↦ elim (env "VAULT_KEY_NAME") [
    | none ↦ ""
    | some key_name ↦ elim (env "ORG_A_COMMON_NAME") [
      | none ↦ ""
      | some common_name ↦ key_name <> (":" <> common_name)
    ]
  ]
]

abbrev pair_of : String × Option String → List (String × String) → List (String × String)
pair_of (key_name, none) pairs = pairs
pair_of (key_name, some common_name) pairs = (key_name, common_name) ∷ pairs

-- `tuple(pair.split(":", 1)) for pair in pairs if ":" in pair`
pairs_of : List String → List (String × String)
unfolding split_once
pairs_of [] = []
pairs_of (pair ∷ pairs) = pair_of (split_once b':' pair) (pairs_of pairs)

unfoldable pub issuers_of : Environ → List (String × String)
unfolding legacy_issuers pairs_of get_env split
issuers_of env = pairs_of (
    split b',' (
      or_text (or_text (get_env env "ISSUERS" "") (legacy_issuers env))
        "org-a-issuer:org-a,org-b-issuer:org-b"))

unfoldable pub config : Environ → Config
unfolding issuers_of get_env rstrip_slash
config env = record {
  identity_node_url = rstrip_slash (get_env env "IDENTITY_NODE_URL" "http://identity-node:4000");
  vault_addr = rstrip_slash (get_env env "VAULT_ADDR" "http://identity-vault:8200");
  vault_token = get_env env "VAULT_TOKEN" "";
  issuers = issuers_of env;
}

-- `_request`: an HTTP error is an answer like another.
abbrev pub node_request : Method → String → Body → List (String × String) → Request
node_request method url body headers = record {
  method = method;
  url = url;
  headers = ("Content-Type", "application/json") ∷ headers;
  auth = none;
  body = body;
}

abbrev pub vault_request : Config → Method → String → Body → Request
vault_request cfg method path body =
    node_request method (cfg.vault_addr <> ("/v1/" <> path)) body
      (("X-Vault-Token", cfg.vault_token) ∷ [])

-- `json.loads(body) if body else {}`
abbrev parsed_body : Response → M Value
parsed_body r = if is_empty r.text then pure (obj end) else json r

unfoldable pub vault : Config → Method → String → Body → M (ℕ × Value)
vault cfg method path body = do
  r ← request (vault_request cfg method path body)
  parsed ← parsed_body r
  pure (r.status_code, parsed)

-- `sys.exit(1)`
abbrev pub exit {ℓ} : {A : Type ℓ} → M A
exit = raise (foreign "SystemExit")

abbrev pub is_true : Result Bool → Bool
is_true (ok b) = b
is_true (err e) = false

-- An attempt that raises is one that is not ready.
unfoldable pub tried : M Bool → M Bool
tried probe = attempt probe >>= λ r. pure (is_true r)

-- `MAX_TRIES` and `POLL_INTERVAL`
abbrev pub max_tries : ℕ
max_tries = 30

abbrev pub pause : ℕ → M (Unit {0})
pause n = sleep 3

abbrev pub ready_or_exit : Bool → M (Unit {0})
ready_or_exit true = pure tt
ready_or_exit false = exit

unfoldable pub wait_for : M Bool → M (Unit {0})
unfolding tried
wait_for probe = poll max_tries (tried probe) pause >>= λ ready. ready_or_exit ready

unfoldable pub identity_node_probe : Config → M Bool
identity_node_probe cfg = do
  r ← request (
      node_request http_get
        (cfg.identity_node_url <> "/v1alpha1/issuer/__probe__/.well-known/jwks.json") no_body [])
  pure (r.status_code == 200 || r.status_code == 400 || r.status_code == 404)

unfoldable pub vault_probe : Config → M Bool
vault_probe cfg = do
  answer ← vault cfg http_get "sys/health" no_body
  pure (answer.0 == 200 || answer.0 == 429 || answer.0 == 472 || answer.0 == 473)
