-- ===== src/Register/Contained.antt =====
-- Where the agents of cross-domain-id-jag-vc send the requests of their registration and of their
-- badge, which are those of the client.
use agent_identity_demos.Prelude.{ℕ, String, List}
use agent_identity_demos.Value.{Value}
use agent_identity_demos.Effects.{World, Request, M}
use agent_identity_demos.Effects.Sends.{Policy, Sends, sends_rules}
use agent_identity_demos.Client.Vault.{VaultConfig}
use agent_identity_demos.Client.Directory.{push_record}
use agent_identity_demos.Client.Vc.{Grant}
use agent_identity_demos.Client.Contained.{
  ToVault, ToNode, generate_id-Sends, resolve_id-Sends, issue_badge-Sends,
}
use agent_identity_demos.Step.{Step}
use agent_identity_demos.Phase.Requests.{phase_rules}
use agent_identity_demos.Register.{
  registration, resolve, registered, register_phase, badge_phase, push_turn,
}

module _ {P : Policy} {w : World} where
  push_record-Sends : (url : String) (v : Value) → P.may_push url v → Sends P (push_record url v) w
  unfolding push_record
  push_record-Sends url v good = record { sends = λ h p. (good, p) }

  to_directory-Sends :
      (url : String)
      → ((v : Value) → P.may_push url v)
      → (v : Value) → Sends P (push_record url v) w
  to_directory-Sends url good v = push_record-Sends url v (good v)

  pub push_turn-Sends :
      (dir_url agent : String) (turn : ℕ → Value) (s : Step)
      → ((v : Value) → P.may_push dir_url v)
      → Sends P (push_turn dir_url agent turn s) w
  unfolding push_turn
  push_turn-Sends dir_url agent turn s good =
      search (sends_rules, phase_rules, to_directory-Sends dir_url good) depth 60

  registered-Sends : (client : String) (steps : List Step) → Sends P (registered client steps) w
  unfolding registered
  registered-Sends client steps = record { sends = λ h p. p }

  pub register_phase-Sends :
      (client : String) (m : M (List Step)) → Sends P m w → Sends P (register_phase client m) w
  unfolding register_phase
  register_phase-Sends client m q = search (sends_rules, registered-Sends) depth 60

  module _ (cfg : VaultConfig) (node : String)
      (vault : (r : Request) → ToVault cfg r → P.may_send r)
      (at_node : (r : Request) → ToNode node r → P.may_send r) where
    resolve-Sends : (id : Value) (s : Step) → Sends P (resolve node id s) w
    unfolding resolve
    resolve-Sends id s =
        search (sends_rules, phase_rules, resolve_id-Sends {P = P} cfg w vault node at_node) depth
          60

    pub registration-Sends :
        (client : String) (s : Step) (next : String → Step)
        → Sends P (registration node cfg client s next) w
    unfolding registration
    registration-Sends client s next =
        search
          (
            sends_rules,
            phase_rules,
            resolve-Sends,
            generate_id-Sends {P = P} cfg w vault node at_node,
          )
          depth 60

    pub badge_phase-Sends :
        (s : Step) (grant : M Grant) (chain : List String)
        → Sends P grant w
        → Sends P (badge_phase node cfg s grant chain) w
    unfolding badge_phase
    badge_phase-Sends s grant chain q =
        search (sends_rules, phase_rules, issue_badge-Sends {P = P} cfg w vault node at_node) depth
          60
