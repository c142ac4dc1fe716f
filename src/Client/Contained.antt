-- ===== src/Client/Contained.antt =====
-- Where the client of cross-domain-id-jag-vc/agntcy_identity_client sends its requests: to Vault,
-- with the token of Vault, or to the Identity Node, with no header of its own.
use agent_identity_demos.Prelude.{List, ℕ, String, ◌<>◌, ◌≡◌, refl, ap, none, some, Option, [], ◌∷◌}
use agent_identity_demos.Prelude.Text.{rstrip_slash}
use text.Mathlib.TextLemmas.{append_assoc}
use agent_identity_demos.Value.{Value, Fields, Items, nil, cons}
use agent_identity_demos.Effects.{Response, World, Request}
use agent_identity_demos.Effects.Sends.{
  Policy, Sends, Sends-pure, Sends-bind, Sends-request, Sends-require, sends_rules,
}
use agent_identity_demos.Client.Vault.{VaultConfig}
use agent_identity_demos.Client.Vault
use agent_identity_demos.Client.Cimd
use agent_identity_demos.Client.Vc

-- The request goes to Vault's Transit, and its one header of its own is the token of Vault.
abbrev pub ToVault : VaultConfig → Request → Type 0
ToVault cfg r =
    (path : String) × (r.url ≡ cfg.vault_addr <> ("/v1/transit/" <> path))
    × (r.headers ≡ ("X-Vault-Token", cfg.vault_token) ∷ [])
    × (r.auth ≡ none)

-- The request goes to the Identity Node, with no header of its own and no credentials of HTTP.
abbrev pub ToNode : String → Request → Type 0
ToNode node r =
    (path : String) × (r.url ≡ rstrip_slash node <> ("/v1alpha1/" <> path))
    × (r.headers ≡ [])
    × (r.auth ≡ none)

in_vc :
    (node path : String)
    → node <> ("/v1alpha1/vc/" <> path) ≡ node <> ("/v1alpha1/" <> ("vc/" <> path))
in_vc node path = ap (λ s. node <> s) (append_assoc "/v1alpha1/" "vc/" path)

module _ {P : Policy} {w : World} where
  store_jwk-Sends : (cfg : VaultConfig) (jwk : Fields) → Sends P (Vault.store_jwk cfg jwk) w
  unfolding Vault.store_jwk
  store_jwk-Sends cfg jwk = record { sends = λ h p. (tt, p) }

  raise_for_status-Sends : (r : Response) → Sends P (Vault.raise_for_status r) w
  unfolding Vault.raise_for_status
  raise_for_status-Sends r = Sends-require _ _

  expiry_after-Sends : (expires : String) (now : ℕ) → Sends P (Vc.expiry_after expires now) w
  unfolding Vc.expiry_after
  expiry_after-Sends expires now = record { sends = λ h p. p }

ruleset answer_rules = (sends_rules, store_jwk-Sends, raise_for_status-Sends, expiry_after-Sends)

module _ {P : Policy} (cfg : VaultConfig) (w : World)
    (vault : (r : Request) → ToVault cfg r → P.may_send r) where
  fetch_issuer_jwk-Sends : Sends P (Vault.fetch_issuer_jwk cfg) w
  unfolding Vault.fetch_issuer_jwk
  fetch_issuer_jwk-Sends =
      Sends-bind _ _ (Sends-request _ (vault _ ("keys" <> ("/" <> cfg.key_name), refl, refl, refl)))
        (λ r. search answer_rules depth 60)

  jwk_or_fetch-Sends : (jwk : Option Fields) → Sends P (Vault.jwk_or_fetch cfg jwk) w
  jwk_or_fetch-Sends none = fetch_issuer_jwk-Sends
  jwk_or_fetch-Sends (some jwk) = Sends-pure jwk

  pub get_issuer_jwk-Sends : Sends P (Vault.get_issuer_jwk cfg) w
  unfolding Vault.get_issuer_jwk
  get_issuer_jwk-Sends = record {
    sends = λ h p. (jwk_or_fetch-Sends (Vault.find_cached cfg.vault_addr cfg.key_name h)).sends h p;
  }

  sign_segments-Sends :
      (header payload : Fields) → Sends P (Vault.sign_segments cfg header payload) w
  unfolding Vault.sign_segments Vault.vault_sign_rs256
  sign_segments-Sends header payload =
      Sends-bind _ _
        (Sends-bind _ _
          (Sends-request _ (vault _ ("sign" <> ("/" <> cfg.key_name), refl, refl, refl)))
          (λ r. search answer_rules depth 60))
        (λ s. Sends-pure _)

  build_proof_jwt-Sends : (sub : String) → Sends P (Vault.build_proof_jwt cfg sub) w
  unfolding Vault.build_proof_jwt
  build_proof_jwt-Sends sub =
      search (answer_rules, get_issuer_jwk-Sends, sign_segments-Sends) depth 60

  module _ (node : String) (at_node : (r : Request) → ToNode node r → P.may_send r) where
    pub generate_id-Sends : (sub : String) → Sends P (Cimd.generate_id node cfg sub) w
    unfolding Cimd.generate_id
    generate_id-Sends sub = Sends-bind _ _ (build_proof_jwt-Sends sub) (λ proof_jwt.
        Sends-bind _ _ (Sends-request _ (at_node _ ("id/generate", refl, refl, refl)))
          (λ r. search answer_rules depth 60))

    pub resolve_id-Sends : (cimd_id : Value) → Sends P (Cimd.resolve_id node cimd_id) w
    unfolding Cimd.resolve_id
    resolve_id-Sends cimd_id =
        Sends-bind _ _ (Sends-request _ (at_node _ ("id/resolve", refl, refl, refl)))
          (λ r. search answer_rules depth 60)

    pub well_known_badges-Sends : (id : String) → Sends P (Vc.well_known_badges node id) w
    unfolding Vc.well_known_badges
    well_known_badges-Sends id =
        Sends-bind _ _ (Sends-request _ (at_node _ (_, in_vc _ _, refl, refl)))
          (λ r. search answer_rules depth 60)

    verify_badge-Sends : (jws : String) → Sends P (Vc.verify_badge node jws) w
    unfolding Vc.verify_badge
    verify_badge-Sends jws =
        Sends-bind _ _ (Sends-request _ (at_node _ ("vc/verify", refl, refl, refl)))
          (λ r. search answer_rules depth 60)

    publish_badge-Sends : (jws id : String) → Sends P (Vc.publish_badge node cfg jws id) w
    unfolding Vc.publish_badge
    publish_badge-Sends jws id = Sends-bind _ _ (build_proof_jwt-Sends id) (λ proof_jwt.
        Sends-bind _ _ (Sends-request _ (at_node _ ("vc/publish", refl, refl, refl)))
          (λ r. search answer_rules depth 60))

    is_live-Sends : (g : Vc.Grant) (payload : Option Value) → Sends P (Vc.is_live g payload) w
    unfolding Vc.is_live Vc.still_valid
    is_live-Sends g none = Sends-pure _
    is_live-Sends g (some payload) = search answer_rules depth 60

    find_in-Sends : (g : Vc.Grant) (entries : Items) → Sends P (Vc.find_in g entries) w
    unfolding Vc.find_in
    find_in-Sends g nil = Sends-pure _
    find_in-Sends g (cons entry entries) =
        let rest = find_in-Sends g entries in search (answer_rules, is_live-Sends) depth 60

    find_live_badge-Sends : (g : Vc.Grant) → Sends P (Vc.find_live_badge node g) w
    unfolding Vc.find_live_badge
    find_live_badge-Sends g = search (answer_rules, well_known_badges-Sends, find_in-Sends) depth 60

    sign_credential-Sends : (credential : Fields) → Sends P (Vc.sign_credential cfg credential) w
    unfolding Vc.sign_credential
    sign_credential-Sends credential =
        search (answer_rules, get_issuer_jwk-Sends, sign_segments-Sends) depth 60

    new_or_reused-Sends :
        (g : Vc.Grant) (chain : List String) (ttl : ℕ) (existing : Option String)
        → Sends P
            (elim existing [
              | none ↦ Vc.new_badge node cfg g chain ttl
              | some jws ↦ Vc.reuse_badge node cfg jws
            ])
            w
    unfolding Vc.build_badge_credential
    new_or_reused-Sends g chain ttl none =
        search (answer_rules, sign_credential-Sends, publish_badge-Sends, verify_badge-Sends) depth
          80
    new_or_reused-Sends g chain ttl (some jws) = search (answer_rules, verify_badge-Sends) depth 60

    pub issue_badge-Sends :
        (g : Vc.Grant) (chain : List String) (ttl : ℕ)
        → Sends P (Vc.issue_badge node cfg g chain ttl) w
    unfolding Vc.issue_badge
    issue_badge-Sends g chain ttl =
        Sends-bind _ _ (find_live_badge-Sends g) (new_or_reused-Sends g chain ttl)
