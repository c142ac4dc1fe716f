-- ===== src/NodeInit/Tests.antt =====
-- Runs of cross-domain-id-jag-vc/identity-node-init.py.
use agent_identity_demos.Prelude.{
  ℕ, ◌<◌, String, ◌≡◌, refl, Bool, true, false, Option, some, none, List, [], ◌∷◌, All, ◌⊎◌, ◌==◌,
  string_eq, nat_eq, if◌then◌else◌,
}
use agent_identity_demos.Value.{Value, Fields, str, obj, end, field, get_default}
use agent_identity_demos.Effects.{
  foreign, ok, err, World, History, Result, Response, request, sent, json, ◌>>=◌, time, uuid4,
}
use agent_identity_demos.Effects.Values.{subscript}
use agent_identity_demos.Effects.Invert.{Returns}
use agent_identity_demos.Poll.{poll}
use agent_identity_demos.Poll.First.{Ready, Late}
use agent_identity_demos.NodeInit.Setup
use agent_identity_demos.NodeInit.Keys
use agent_identity_demos.NodeInit.Register
use agent_identity_demos.NodeInit.Waits
use agent_identity_demos.NodeInit.Registered
use agent_identity_demos.Fixtures.{world_of}

abbrev cfg : Setup.Config
cfg = record {
  identity_node_url = "http://node";
  vault_addr = "http://vault";
  vault_token = "token";
  issuers = ("org-a-issuer", "org-a") ∷ [];
}

-- One answer that Vault and the Identity Node could both give, with the smallest of public keys.
abbrev reply : Value
reply = obj (
    field "data"
      (obj (
        field "keys"
          (obj (field "1" (obj (field "public_key" (str "MA0wAAMJADAGAgEFAgED") end)) end))
          (field "signature" (str "vault:v1:QUJD") end)))
      end)

abbrev answer : ℕ → Response
answer status = record { status_code = status; text = "{…}"; headers = []; json = some reply }

abbrev world : World
world = world_of (answer 200) end

wait_for-ends_example :
    ((k : ℕ) × (h' : History) × Ready
        (Setup.tried (Setup.vault_probe cfg))
        Setup.pause
        world
        30
        k
        []
        h'
      × (k < 30)
      × (Setup.wait_for (Setup.vault_probe cfg) world [] ≡ (ok tt, h')))
    ⊎ ((h' : History) × Late (Setup.tried (Setup.vault_probe cfg)) Setup.pause world 30 [] h'
        × (Setup.wait_for (Setup.vault_probe cfg) world [] ≡ (err (foreign "SystemExit"), h')))
wait_for-ends_example = Waits.wait_for-ends (Setup.vault_probe cfg) world []

abbrev run : Result (Unit {0}) × History
run = Register.main cfg world []

main_returns : Returns (Register.main cfg) world [] tt run.1
unfolding Keys.assert_key_matches_registration Keys.create_signing_key Keys.enable_transit
    Keys.get_public_jwk Keys.jwks_request Keys.published_issuer_modulus Keys.vault_sign_rs256
    Register.build_self_issued_jwt Register.main Register.register_all Register.register_issuer
    Register.register_one Setup.identity_node_probe Setup.tried Setup.vault Setup.vault_probe
    Setup.wait_for agent_identity_demos.Base64.b64decode agent_identity_demos.Client.Vault.b64_bytes
    agent_identity_demos.Client.Vault.latest_version agent_identity_demos.Client.Vault.pem_body
    agent_identity_demos.Client.Vault.signature_text agent_identity_demos.Prelude.Text.is_decimal
    json nat_eq poll request string_eq subscript time uuid4 ◌>>=◌
    agent_identity_demos.Effects.as_dict get_default agent_identity_demos.Effects.Values.items_of
main_returns = record { returns = refl }

main-Registered_example : All (Registered.Registered cfg world) (("org-a-issuer", "org-a") ∷ [])
main-Registered_example = Registered.main-Registered cfg world [] run.1 tt main_returns

-- The Identity Node answers the question for a key by an error.
abbrev jwks : String
jwks = "http://node/v1alpha1/issuer/org-a/.well-known/jwks.json"

abbrev deaf_world : World
deaf_world = record world { send = λ h q. ok (if q.url == jwks then answer 500 else answer 200) }

abbrev published : Result (Option Value) × History
published = Keys.published_issuer_modulus cfg "org-a" deaf_world []

nothing_published : Keys.published_issuer_modulus cfg "org-a" deaf_world [] ≡ (ok none, published.1)
unfolding Keys.published_issuer_modulus ◌>>=◌ request nat_eq string_eq Keys.jwks_request
nothing_published = refl

assert_key_matches_registration-found_example :
    (Registered.Agrees none "BQ"
      × (Keys.assert_key_matches_registration cfg "org-a" "BQ" deaf_world []
          ≡ (ok tt, published.1)))
    ⊎ ((¬ (Registered.Agrees none "BQ"))
        × (Keys.assert_key_matches_registration cfg "org-a" "BQ" deaf_world []
            ≡ (err (foreign "SystemExit"), published.1)))
assert_key_matches_registration-found_example =
    Registered.assert_key_matches_registration-found cfg deaf_world "org-a" "BQ" [] published.1 none
      nothing_published

abbrev after_create : History
after_create = (Keys.create_signing_key cfg "org-a-issuer" deaf_world []).1

abbrev jwk : Fields
jwk = Keys.public_jwk "org-a-issuer" (5 ∷ [], 3 ∷ [])

abbrev after_read : History
after_read = (Keys.get_public_jwk cfg "org-a-issuer" deaf_world after_create).1

created : Keys.create_signing_key cfg "org-a-issuer" deaf_world [] ≡ (ok tt, after_create)
unfolding Keys.create_signing_key ◌>>=◌ Setup.vault request string_eq json nat_eq
created = refl

read : Keys.get_public_jwk cfg "org-a-issuer" deaf_world after_create ≡ (ok jwk, after_read)
unfolding Keys.get_public_jwk ◌>>=◌ Setup.vault request string_eq json nat_eq subscript
    agent_identity_demos.Client.Vault.latest_version agent_identity_demos.Prelude.Text.is_decimal
    agent_identity_demos.Client.Vault.b64_bytes agent_identity_demos.Base64.b64decode
    agent_identity_demos.Client.Vault.pem_body
read = refl

abbrev asked : History
asked = sent (Keys.jwks_request cfg "org-a") ∷ after_read

abbrev built : Result String × History
built = Register.build_self_issued_jwt cfg "org-a-issuer" "org-a" "org-a" jwk deaf_world asked

abbrev proof_of : Result String → String
proof_of (ok proof) = proof
proof_of (err e) = ""

is_built :
    Register.build_self_issued_jwt cfg "org-a-issuer" "org-a" "org-a" jwk deaf_world asked
    ≡ (ok (proof_of built.0), built.1)
unfolding Register.build_self_issued_jwt ◌>>=◌ subscript string_eq time uuid4 Keys.vault_sign_rs256
    Setup.vault request json agent_identity_demos.Client.Vault.signature_text
    agent_identity_demos.Client.Vault.b64_bytes agent_identity_demos.Base64.b64decode
is_built = refl

asks_jwks : deaf_world.send after_read (Keys.jwks_request cfg "org-a") ≡ ok (answer 500)
unfolding string_eq Keys.jwks_request
asks_jwks = refl

registers :
    deaf_world.send built.1 (Register.register_request cfg "org-a" jwk (proof_of built.0))
    ≡ ok (answer 200)
unfolding string_eq Register.register_request
registers = refl

no_success : ((answer 500).status_code == 200) ≡ false
unfolding nat_eq
no_success = refl

is_success : Register.registered 200 "{…}" ≡ true
unfolding nat_eq
is_success = refl

register_one-unread_example :
    Register.register_one cfg "org-a-issuer" "org-a" deaf_world []
    ≡ (ok tt, sent (Register.register_request cfg "org-a" jwk (proof_of built.0)) ∷ built.1)
register_one-unread_example =
    Registered.register_one-unread cfg deaf_world "org-a-issuer" "org-a" [] after_create after_read
      built.1 jwk (proof_of built.0) (answer 500) (answer 200) created read asks_jwks no_success
      is_built registers is_success
