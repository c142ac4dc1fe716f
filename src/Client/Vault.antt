-- ===== src/Client/Vault.antt =====
-- cross-domain-id-jag-vc/agntcy_identity_client/vault.py and the `VaultConfig` of its package: keys
-- and signatures of Vault Transit, and the proof of an agent's identity.
use agent_identity_demos.Prelude.{
  ℕ, ◌+◌, String, ◌<>◌, Bool, false, ◌&&◌, ◌||◌, not, Option, none, some, List, [], ◌∷◌, ltb, leb,
  ◌==◌, nat_eq, string_eq, if◌then◌else◌,
}
use agent_identity_demos.Prelude.Text.{
  is_empty, strip, split_by, includes, join, split_once, encode, is_decimal, decimal_value,
  rstrip_slash,
}
use agent_identity_demos.Prelude.{filter}
use agent_identity_demos.Value.{Value, Fields, str, num, arr, obj, nil, cons, end, field}
use agent_identity_demos.Effects.{
  value_error, index_error, type_error, foreign, Result, ok, err, cached, History, M, pure, lift,
  require, ◌>>=◌, ◌>>◌, Request, Response, http_get, http_post, no_body, json_body, request, json,
  time, uuid4,
}
use agent_identity_demos.Effects.Values.{subscript, as_text}
use agent_identity_demos.Base64.{standard, b64encode, b64url, b64decode}
use agent_identity_demos.Environ.{Environ, get_env}
use agent_identity_demos.Json.{dumps}
use agent_identity_demos.Client.Der.{rsa_public_numbers}

pub record VaultConfig : Type 0 where
  pub vault_addr : String
  pub vault_token : String
  pub key_name : String
  pub common_name : String

abbrev pub kid : VaultConfig → String
kid cfg = cfg.key_name <> "-v1"

abbrev pub issuer : VaultConfig → String
issuer cfg = "agntcy:" <> cfg.common_name

-- `os.environ.get("ORG_COMMON_NAME") or os.environ.get("ORG_A_COMMON_NAME", "org-a")`
abbrev common_name_of : Environ → Option String → String
common_name_of env none = get_env env "ORG_A_COMMON_NAME" "org-a"
common_name_of env (some name) =
    if is_empty name then get_env env "ORG_A_COMMON_NAME" "org-a" else name

-- `VaultConfig.from_env`
unfoldable pub from_env : Environ → VaultConfig
unfolding get_env rstrip_slash
from_env env = record {
  vault_addr = rstrip_slash (get_env env "VAULT_ADDR" "http://identity-vault:8200");
  vault_token = get_env env "VAULT_TOKEN" "";
  key_name = get_env env "VAULT_KEY_NAME" "org-a-issuer";
  common_name = common_name_of env (env "ORG_COMMON_NAME");
}

-- `r.raise_for_status()`
unfoldable pub raise_for_status : Response → M (Unit {0})
raise_for_status r =
    require (leb 200 r.status_code && ltb r.status_code 300) (foreign "HTTPStatusError")

-- `max(keys, key=int)`, the first of the greatest, for names that are decimal numbers as Vault's
-- versions are.
latest_from : String → Fields → Result String
latest_from best end = ok best
latest_from best (field k v fs) =
    let rest = latest_from (if ltb (decimal_value best) (decimal_value k) then k else best) fs in
    if is_decimal k then rest else err (value_error "invalid literal for int()")

unfoldable pub latest_version : Value → Result String
unfolding latest_from
latest_version (obj end) = err (value_error "max() arg is an empty sequence")
latest_version (obj (field k v fs)) =
    if is_decimal k then latest_from k fs else err (value_error "invalid literal for int()")
latest_version _ = err (type_error "not iterable")

is_line_break : ℕ → Bool
unfolding nat_eq
is_line_break c =
    (leb 10 c && leb c 13) || (leb 28 c && leb c 30) || c == 133 || c == 8232 || c == 8233

-- The lines of a PEM text but for its frame, joined. An empty line more or less is no matter here.
unfoldable pub pem_body : String → String
unfolding strip split_by is_line_break filter includes join
pem_body pem = join "" (
    filter (λ line. not (includes line "BEGIN") && not (includes line "END"))
      (split_by is_line_break (strip pem)))

abbrev decoded : Bool → Option (List ℕ) → Result (List ℕ)
decoded safe none = err (foreign "binascii.Error")
decoded safe (some bytes) = ok bytes

unfoldable pub b64_bytes : String → Result (List ℕ)
b64_bytes s = decoded false (b64decode false s)

abbrev pub issuer_jwk : VaultConfig → List ℕ × List ℕ → Fields
issuer_jwk cfg (n_bytes, e_bytes) = field "kty" (str "RSA") (
    field "n" (str (b64url n_bytes)) (
      field "e" (str (b64url e_bytes))
        (field "alg" (str "RS256") (field "use" (str "sig") (field "kid" (str (kid cfg)) end)))))

-- `_jwk_cache.get((vault_addr, key_name))`: the events hold what was stored.
unfoldable pub find_cached : String → String → History → Option Fields
find_cached a k [] = none
find_cached a k (cached b j jwk ∷ h) = if a == b && k == j then some jwk else find_cached a k h
find_cached a k (e ∷ h) = find_cached a k h

abbrev vault_request : VaultConfig → String → Request
vault_request cfg path = record {
  method = http_get;
  url = cfg.vault_addr <> ("/v1/transit/" <> (path <> ("/" <> cfg.key_name)));
  headers = ("X-Vault-Token", cfg.vault_token) ∷ [];
  auth = none;
  body = no_body;
}

unfoldable pub store_jwk : VaultConfig → Fields → M Fields
store_jwk cfg jwk w h = (ok jwk, cached cfg.vault_addr cfg.key_name jwk ∷ h)

unfoldable pub fetch_issuer_jwk : VaultConfig → M Fields
unfolding store_jwk
fetch_issuer_jwk cfg = do
  r ← request (vault_request cfg "keys")
  raise_for_status r
  reply ← json r
  body ← lift (subscript "data" reply)
  keys ← lift (subscript "keys" body)
  version ← lift (latest_version keys)
  key ← lift (subscript version keys)
  public_key ← lift (subscript "public_key" key)
  pem ← lift (as_text public_key)
  der ← lift (b64_bytes (pem_body pem))
  numbers ← lift (rsa_public_numbers der)
  store_jwk cfg (issuer_jwk cfg numbers)

abbrev pub jwk_or_fetch : VaultConfig → Option Fields → M Fields
jwk_or_fetch cfg none = fetch_issuer_jwk cfg
jwk_or_fetch cfg (some jwk) = pure jwk

unfoldable pub get_issuer_jwk : VaultConfig → M Fields
get_issuer_jwk cfg w h = jwk_or_fetch cfg (find_cached cfg.vault_addr cfg.key_name h) w h

-- `vault_sig.split(":", 2)[2]`
abbrev after_colon : Option String → Option String
after_colon none = none
after_colon (some s) = (split_once b':' s).1

abbrev or_index_error : Option String → Result String
or_index_error none = err index_error
or_index_error (some s) = ok s

unfoldable pub signature_text : String → Result String
unfolding split_once
signature_text s = or_index_error (after_colon (split_once b':' s).1)

unfoldable pub vault_sign_rs256 : VaultConfig → String → M String
vault_sign_rs256 cfg signing_input = do
  r ← request (record (vault_request cfg "sign") {
    method = http_post;
    body = json_body (
        obj (
          field "input" (str (b64encode standard (encode signing_input))) (
            field "hash_algorithm" (str "sha2-256")
              (field "signature_algorithm" (str "pkcs1v15") end))));
  })
  raise_for_status r
  reply ← json r
  body ← lift (subscript "data" reply)
  signature ← lift (subscript "signature" body)
  vault_sig ← lift (as_text signature)
  text ← lift (signature_text vault_sig)
  bytes ← lift (b64_bytes text)
  pure (b64url bytes)

-- The segment of a value: `b64url(json.dumps(v, separators=(",", ":")).encode())`.
unfoldable pub segment : Value → String
unfolding dumps encode b64url
segment v = b64url (encode (dumps v))

-- `f"{header}.{payload}"`, and the signature behind it.
unfoldable pub sign_segments : VaultConfig → Fields → Fields → M String
unfolding segment
sign_segments cfg header payload = do
  let signing_input = segment (obj header) <> ("." <> segment (obj payload))
  signature ← vault_sign_rs256 cfg signing_input
  pure (signing_input <> ("." <> signature))

abbrev pub jws_header : String → Value → Fields
jws_header typ key_id = field "alg" (str "RS256") (field "typ" (str typ) (field "kid" key_id end))

abbrev pub proof_payload : VaultConfig → String → ℕ → String → Fields → Fields
proof_payload cfg sub now jti jwk = field "iss" (str (issuer cfg)) (
    field "sub" (str sub) (
      field "aud" (arr (cons (str sub) nil)) (
        field "exp" (num (now + 3600))
          (field "iat" (num now) (field "jti" (str jti) (field "sub_jwk" (obj jwk) end))))))

unfoldable pub build_proof_jwt : VaultConfig → String → M String
build_proof_jwt cfg sub = do
  jwk ← get_issuer_jwk cfg
  key_id ← lift (subscript "kid" (obj jwk))
  now ← time
  jti ← uuid4
  sign_segments cfg (jws_header "JWT" key_id) (proof_payload cfg sub now jti jwk)
