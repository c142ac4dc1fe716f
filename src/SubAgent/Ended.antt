-- ===== src/SubAgent/Ended.antt =====
-- The phases of `run` in cross-domain-id-jag-vc/sub-agent/app.py up to the work at the gateway never
-- raise.
use agent_identity_demos.Prelude.{
  [], false, if◌then◌else◌, String, ◌≡◌, refl, true, List, ◌∷◌, ◌⊎◌, inl, inr, Bool-cases,
}
use agent_identity_demos.Value.{Value, Fields}
use agent_identity_demos.Effects.{pure, ok, World, History, M, drew_token, token_hex, ◌>>=◌}
use agent_identity_demos.Effects.Total.{
  Holds-asks, Holds, Holds-pure, Holds-bind, Holds-if, Always, Always-pure, Always-asks,
  Always-catch, Always-bind, Always-if,
}
use agent_identity_demos.Step.{Step, steps_reply, Outcome, stopped, passed}
use agent_identity_demos.Phase.{◌>=>◌, any_failed}
use agent_identity_demos.Phase.Ended.{
  Ends, any_failed-failed, Ends-go_on, Always-fails_with, Always-or_stop, Always-or_fail,
  Always-phases,
}
use agent_identity_demos.Client.Vault.{VaultConfig}
use agent_identity_demos.Client.Vc.{Grant}
use agent_identity_demos.Register.{registration, resolve, registered, register_phase, badge_phase}
use agent_identity_demos.SubAgent.Badge.{Config, RunRequest}
use agent_identity_demos.SubAgent.Steps.{cimd_register}
use agent_identity_demos.SubAgent.Sender.{sender_phase}
use agent_identity_demos.SubAgent.Run.{
  token_step, verify_phase, publish_phase, exchange_phase, token_passed, credentials, run,
}

module _ {w : World} where
  resolve-Always :
      (node : String) (id : Value) (s : Step) → Always (λ t. Unit {0}) (resolve node id s) w
  unfolding resolve
  resolve-Always node id s = Always-or_fail _ s _

  registration-Always :
      (node : String) (cfg : VaultConfig) (client : String) (s : Step) (next : String → Step)
      → Always (λ steps. Unit {0}) (registration node cfg client s next) w
  unfolding registration
  registration-Always node cfg client s next =
      Always-bind _ _
        (Always-catch {P = λ x. Unit {0}} _ _ (record { holds = λ q. tt })
          (λ e. Always-bind _ _ (Always-fails_with _ s e) (λ t _. Always-pure _ tt)))
        (λ x _.
          Always-if _ _ _
            (Always-bind _ _ (Always-asks {P = λ t. Unit {0}} _ tt)
              (λ text _. Always-bind _ _ (resolve-Always node _ _) (λ second _. Always-pure _ tt)))
            (Always-pure _ tt))

  registered-Always :
      (client : String) (steps : List Step) → Always (λ id. Unit {0}) (registered client steps) w
  unfolding registered
  registered-Always client steps = record { always = λ h. (_, h, refl, tt) }

  Ends-registered :
      (steps : List Step) (id : String)
      → Always Ends (if any_failed steps then pure (stopped steps) else pure (passed steps id)) w
  Ends-registered steps id = elim (Bool-cases (any_failed steps)) [
    | inl bad ↦ rw bad (Always-pure _ bad)
    | inr good ↦ rw good (Always-pure _ tt)
  ]

  register_phase-Always :
      (client : String) (m : M (List Step))
      → Always (λ steps. Unit {0}) m w
      → Always Ends (register_phase client m) w
  unfolding register_phase
  register_phase-Always client m q = Always-bind _ _ q (λ steps _.
      Always-bind _ _ (registered-Always client steps) (λ id _. Ends-registered steps id))

  badge_phase-Always :
      (node : String) (cfg : VaultConfig) (s : Step) (grant : M Grant) (chain : List String)
      → Always Ends (badge_phase node cfg s grant chain) w
  unfolding badge_phase
  badge_phase-Always node cfg s grant chain =
      Always-bind _ _ (Always-or_fail _ s _) (λ t _. Always-pure _ (Ends-go_on tt t))

module _ (cfg : Config) (body : RunRequest) (w : World) where
  verify_phase-Always : Always Ends (verify_phase cfg body) w
  unfolding verify_phase
  verify_phase-Always =
      Always-if _ _ _ (Always-pure _ (any_failed-failed _ _))
        (Always-or_stop _ _ _ (Holds-bind _ _ (λ claims. Holds-bind _ _ (λ act. Holds-pure _ tt))))

  publish_phase-Always :
      (claims : Fields) (id : String) → Always Ends (publish_phase cfg body claims id) w
  unfolding publish_phase
  publish_phase-Always claims id = badge_phase-Always _ _ _ _ _

  sender_phase-Always : (claims : Fields) → Always Ends (sender_phase cfg body claims) w
  unfolding sender_phase
  sender_phase-Always claims =
      Always-bind _ _ (Always-or_fail _ _ _) (λ t _. Always-pure _ (Ends-go_on tt t))

  token_passed-Ends : (token : String) (s : Step) → Holds Ends (token_passed token s) w
  unfolding token_passed ◌>>=◌
  token_passed-Ends token s = Holds-asks (λ w. passed (token_step w token s ∷ []) token) tt

  exchange_phase-Always : Always Ends (exchange_phase cfg body) w
  unfolding exchange_phase
  exchange_phase-Always = Always-bind _ _ (Always-asks {P = λ t. Unit {0}} _ tt) (λ chain _.
      Always-or_stop _ _ _ (
        Holds-bind _ _ (λ r.
          Holds-if _ _ _ (Holds-bind _ _ (λ token. token_passed-Ends token _))
            (Holds-pure _ (any_failed-failed _ _)))))

  credentials-Always : Always Ends (credentials cfg body) w
  unfolding credentials cimd_register
  credentials-Always = Always-phases _ _ verify_phase-Always (λ claims.
      Always-phases _ _ (register_phase-Always _ _ (registration-Always _ _ _ _ _)) (λ id.
        Always-phases _ _ (publish_phase-Always claims id)
          (λ _. Always-phases _ _ (sender_phase-Always claims) (λ _. exchange_phase-Always))))

  run-ended :
      (h h' : History) (steps : List Step)
      → credentials cfg body w (drew_token ∷ h) ≡ (ok (stopped steps), h')
      → run cfg body w h ≡ (ok (steps_reply false steps), h')
  unfolding run ◌>=>◌ ◌>>=◌ token_hex
  run-ended h h' steps p = rw p

  -- The run after its phases: they have passed an access token, or ended it.
  abbrev Ended : History → Type 0
  Ended h =
      ((steps : List Step) × (token : String) × (h' : History) × (credentials cfg body w
            (drew_token ∷ h)
          ≡ (ok (passed steps token), h')))
      ⊎ ((steps : List Step) × (h' : History) × (credentials cfg body w (drew_token ∷ h)
            ≡ (ok (stopped steps), h'))
          × (any_failed steps ≡ true)
          × (run cfg body w h ≡ (ok (steps_reply false steps), h')))

  outcome-Ended :
      (h h' : History) (outcome : Outcome String)
      → credentials cfg body w (drew_token ∷ h) ≡ (ok outcome, h')
      → Ends outcome
      → Ended h
  outcome-Ended h h' (stopped steps) ended bad =
      inr (steps, h', ended, bad, run-ended h h' steps ended)
  outcome-Ended h h' (passed steps token) ended _ = inl (steps, token, h', ended)

  -- Whatever is answered, the phases up to the work at the gateway end without an exception: they pass
  -- an access token on, or one of the steps has failed, and the run answers ok=false with the steps so
  -- far and does nothing after them.
  pub run-stopped :
      (h : History)
      → ((steps : List Step) × (token : String) × (h' : History) × (credentials cfg body w
              (drew_token ∷ h)
            ≡ (ok (passed steps token), h')))
        ⊎ ((steps : List Step) × (h' : History) × (credentials cfg body w (drew_token ∷ h)
              ≡ (ok (stopped steps), h'))
            × (any_failed steps ≡ true)
            × (run cfg body w h ≡ (ok (steps_reply false steps), h')))
  run-stopped h =
      let (outcome, h', ended, ends) = credentials-Always.always (drew_token ∷ h) in
      outcome-Ended h h' outcome ended ends
