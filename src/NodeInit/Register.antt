-- ===== src/NodeInit/Register.antt =====
-- `build_self_issued_jwt`, `register_issuer` and `main` of
-- cross-domain-id-jag-vc/identity-node-init.py.
use agent_identity_demos.Prelude.{
  ℕ, ◌+◌, String, ◌<>◌, Bool, ◌&&◌, ◌||◌, List, [], ◌∷◌, ◌==◌, nat_eq, string_eq,
}
use agent_identity_demos.Prelude.Text.{includes}
use agent_identity_demos.Value.{Fields, str, num, obj, arr, nil, cons, end, field, get}
use agent_identity_demos.Effects.{
  M, pure, lift, asks, ◌>>=◌, ◌>>◌, Request, http_post, json_body, request, time, uuid4,
}
use agent_identity_demos.Effects.Values.{subscript, text_of}
use agent_identity_demos.Client.Vault.{segment, jws_header}
use agent_identity_demos.Client.Cimd.{jwt_proof}
use agent_identity_demos.NodeInit.Setup.{
  Config, node_request, wait_for, vault_probe, identity_node_probe,
}
use agent_identity_demos.NodeInit.Keys.{
  enable_transit, create_signing_key, get_public_jwk, vault_sign_rs256,
  assert_key_matches_registration, done_or_exit,
}

abbrev issuer_payload : String → String → ℕ → String → Fields → Fields
issuer_payload common_name sub now jti jwk = field "iss" (str ("agntcy:" <> common_name)) (
    field "sub" (str sub) (
      field "aud" (arr (cons (str sub) nil)) (
        field "exp" (num (now + 3600))
          (field "iat" (num now) (field "jti" (str jti) (field "sub_jwk" (obj jwk) end))))))

unfoldable pub build_self_issued_jwt : Config → String → String → String → Fields → M String
unfolding segment
build_self_issued_jwt cfg key_name common_name sub jwk = do
  key_id ← lift (subscript "kid" (obj jwk))
  now ← time
  jti ← uuid4
  let signing_input =
      segment (obj (jws_header "JWT" key_id))
      <> ("." <> segment (obj (issuer_payload common_name sub now jti jwk)))
  signature ← vault_sign_rs256 cfg key_name signing_input
  pure (signing_input <> ("." <> signature))

unfoldable pub register_request : Config → String → Fields → String → Request
register_request cfg common_name jwk proof_jwt =
    node_request http_post (cfg.identity_node_url <> "/v1alpha1/issuer/register")
      (json_body (
        obj (
          field "issuer"
            (obj (
              field "organization" (str common_name)
                (field "commonName" (str common_name) (field "publicKey" (obj jwk) end))))
            (field "proof" (jwt_proof proof_jwt) end))))
      []

-- Registered now, or before.
abbrev pub registered : ℕ → String → Bool
registered status text = status == 200 || (status == 400 && includes text "already exists")

unfoldable pub register_issuer : Config → String → String → Fields → M (Unit {0})
register_issuer cfg key_name common_name jwk = do
  proof_jwt ← build_self_issued_jwt cfg key_name common_name common_name jwk
  r ← request (register_request cfg common_name jwk proof_jwt)
  done_or_exit (registered r.status_code r.text)

-- `jwk["n"]`, which is a text in every key that Vault gave.
abbrev modulus_text : Fields → M String
modulus_text jwk = asks (λ w. text_of w (get "n" jwk))

unfoldable pub register_one : Config → String → String → M (Unit {0})
register_one cfg key_name common_name = do
  _ ← create_signing_key cfg key_name
  jwk ← get_public_jwk cfg key_name
  n ← modulus_text jwk
  _ ← assert_key_matches_registration cfg common_name n
  register_issuer cfg key_name common_name jwk

unfoldable pub register_all : Config → List (String × String) → M (Unit {0})
register_all cfg [] = pure tt
register_all cfg ((key_name, common_name) ∷ issuers) =
    register_one cfg key_name common_name >> register_all cfg issuers

unfoldable pub main : Config → M (Unit {0})
unfolding register_all
main cfg = do
  _ ← wait_for (vault_probe cfg)
  _ ← wait_for (identity_node_probe cfg)
  _ ← enable_transit cfg
  register_all cfg cfg.issuers
