-- ===== src/NodeInit/Keys.antt =====
-- The keys of Vault in cross-domain-id-jag-vc/identity-node-init.py: `enable_transit`,
-- `create_signing_key`, `get_public_jwk`, `vault_sign_rs256`, and the check against the key that is
-- registered.
use agent_identity_demos.Prelude.{
  List, ℕ, String, ◌<>◌, Bool, true, false, ◌&&◌, ◌||◌, Option, none, some, [], ◌==◌, nat_eq,
  string_eq, if◌then◌else◌,
}
use agent_identity_demos.Prelude.Text.{includes, encode}
use agent_identity_demos.Value.{
  Value, Items, Fields, str, obj, arr, nil, cons, end, field, get, or_value, truthy, eq_str,
}
use agent_identity_demos.Effects.{
  Response, foreign, Result, ok, err, M, pure, lift, ◌>>=◌, Request, http_get, http_post, no_body,
  json_body, request, as_dict, dict_result,
}
use agent_identity_demos.Effects.Values.{subscript, as_text, items_of}
use agent_identity_demos.Base64.{b64encode, b64url, standard}
use agent_identity_demos.Json.{dumps}
use agent_identity_demos.Client.Der.{rsa_public_numbers}
use agent_identity_demos.Client.Vault.{pem_body, b64_bytes, latest_version, signature_text}
use agent_identity_demos.NodeInit.Setup.{Config, node_request, vault, exit}

abbrev pub done_or_exit : Bool → M (Unit {0})
done_or_exit true = pure tt
done_or_exit false = exit

unfoldable pub enable_transit : Config → M (Unit {0})
unfolding dumps includes
enable_transit cfg = do
  answer ←
      vault cfg http_post "sys/mounts/transit" (json_body (obj (field "type" (str "transit") end)))
  let (status, body) = answer
  done_or_exit (
      (status == 200 || status == 204) || (status == 400 && includes (dumps body) "already in use"))

unfoldable pub create_signing_key : Config → String → M (Unit {0})
create_signing_key cfg key_name = do
  answer ←
      vault cfg http_post ("transit/keys/" <> key_name)
        (json_body (obj (field "type" (str "rsa-2048") end)))
  done_or_exit (answer.0 == 200 || answer.0 == 204)

abbrev pub public_jwk : String → List ℕ × List ℕ → Fields
public_jwk key_name (n_bytes, e_bytes) = field "kty" (str "RSA") (
    field "n" (str (b64url n_bytes)) (
      field "e" (str (b64url e_bytes)) (
        field "alg" (str "RS256")
          (field "use" (str "sig") (field "kid" (str (key_name <> "-v1")) end)))))

-- `pem_rsa_pubkey_to_jwk_ne`, before its two numbers are encoded.
unfoldable pub pem_numbers : String → Result (List ℕ × List ℕ)
unfolding rsa_public_numbers
pem_numbers pem = elim (b64_bytes (pem_body pem)) [
  | ok der ↦ rsa_public_numbers der
  | err e ↦ err e
]

-- The key of the latest version, in the answer of Vault.
abbrev latest_pem : Value → M String
latest_pem reply = do
  body ← lift (subscript "data" reply)
  keys ← lift (subscript "keys" body)
  version ← lift (latest_version keys)
  key ← lift (subscript version keys)
  public_key ← lift (subscript "public_key" key)
  lift (as_text public_key)

unfoldable pub get_public_jwk : Config → String → M Fields
unfolding pem_numbers
get_public_jwk cfg key_name = do
  answer ← vault cfg http_get ("transit/keys/" <> key_name) no_body
  _ ← done_or_exit (answer.0 == 200)
  pem ← latest_pem answer.1
  numbers ← lift (pem_numbers pem)
  pure (public_jwk key_name numbers)

unfoldable pub vault_sign_rs256 : Config → String → String → M String
vault_sign_rs256 cfg key_name signing_input = do
  answer ← vault cfg http_post ("transit/sign/" <> key_name) (
      json_body (
        obj (
          field "input" (str (b64encode standard (encode signing_input))) (
            field "hash_algorithm" (str "sha2-256")
              (field "signature_algorithm" (str "pkcs1v15") end)))))
  _ ← done_or_exit (answer.0 == 200)
  body ← lift (subscript "data" answer.1)
  signature ← lift (subscript "signature" body)
  vault_sig ← lift (as_text signature)
  text ← lift (signature_text vault_sig)
  bytes ← lift (b64_bytes text)
  pure (b64url bytes)

abbrev first_modulus : Result Fields → Result (Option Value) → Result (Option Value)
first_modulus (err e) rest = err e
first_modulus (ok key) rest = if truthy (get "n" key) then ok (some (get "n" key)) else rest

-- `next((k.get("n") for k in keys if k.get("n")), None)`
unfoldable pub modulus_in : Items → Result (Option Value)
modulus_in nil = ok none
modulus_in (cons k keys) = first_modulus (dict_result k) (modulus_in keys)

abbrev pub published_keys : Value → M Items
published_keys body = do
  reply ← as_dict body
  jwks ← as_dict (or_value (get "jwks" reply) (obj end))
  lift (items_of (or_value (get "keys" jwks) (arr nil)))

-- `json.loads(body)` of bytes that are no Unicode text raises what `except json.JSONDecodeError` does
-- not catch.
abbrev not_json : Bool → Result (Option Value)
not_json false = ok none
not_json true = err (foreign "UnicodeDecodeError")

unread : Response → M (Option Value)
unread r w h = (not_json (w.undecodable r), h)

unfoldable pub modulus_of : Response → Option Value → M (Option Value)
unfolding modulus_in unread
modulus_of r none = unread r
modulus_of r (some body) = published_keys body >>= λ keys. lift (modulus_in keys)

unfoldable pub jwks_request : Config → String → Request
jwks_request cfg common_name =
    node_request http_get
      (cfg.identity_node_url <> ("/v1alpha1/issuer/" <> (common_name <> "/.well-known/jwks.json")))
      no_body []

-- The modulus that the Identity Node has registered, none where it answers with an error or with a
-- text that is not JSON.
unfoldable pub published_issuer_modulus : Config → String → M (Option Value)
unfolding modulus_of
published_issuer_modulus cfg common_name = do
  r ← request (jwks_request cfg common_name)
  if r.status_code == 200 then modulus_of r r.json else pure none

-- `registered is None or registered == jwk["n"]`
unfoldable pub may_register : Option Value → String → Bool
may_register none n = true
may_register (some registered) n = eq_str registered n

unfoldable pub assert_key_matches_registration : Config → String → String → M (Unit {0})
unfolding may_register
assert_key_matches_registration cfg common_name n = do
  registered ← published_issuer_modulus cfg common_name
  done_or_exit (may_register registered n)
