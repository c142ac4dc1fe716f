-- ===== src/Phase.antt =====
-- How the handlers of the agents in cross-domain-id-jag-vc go on: phase after phase, each of which
-- adds its steps and either passes a value on or ends the handler. `Passed` is about a row of
-- phases that passed, `Requests` about their events, and `Ended` about phases that never raise.
pub mod Passed
pub mod Requests
pub mod Ended
use agent_identity_demos.Prelude.{
  String, Bool, true, false, ◌||◌, List, [], ◌∷◌, ◌++◌, if◌then◌else◌,
}
use agent_identity_demos.Effects.{Exn, M, pure, catch, ◌>>=◌}
use agent_identity_demos.Step.{Step, has_status, Outcome, stopped, passed, fails_with}

abbrev pub append_steps {ℓ} : {A : Type ℓ} → List Step → Outcome A → Outcome A
append_steps before (stopped steps) = stopped (before ++ steps)
append_steps before (passed steps a) = passed (before ++ steps) a

-- One phase after another: the steps add up, and a phase that answers ends the row.
module _ {ℓ κ} {A : Type ℓ} {B : Type κ} where
  abbrev pub next_phase : Outcome A → (A → M (Outcome B)) → M (Outcome B)
  next_phase (stopped steps) k = pure (stopped steps)
  next_phase (passed steps a) k = k a >>= λ outcome. pure (append_steps steps outcome)

  infixl 5 ◌>=>◌
  unfoldable pub ◌>=>◌ : M (Outcome A) → (A → M (Outcome B)) → M (Outcome B)
  m >=> k = m >>= λ outcome. next_phase outcome k

-- The steps go on only if the last one did not fail.
abbrev pub go_on {ℓ} : {A : Type ℓ} → A → Step → Outcome A
go_on a s = if has_status "error" s then stopped (s ∷ []) else passed (s ∷ []) a

abbrev pub stop_with {ℓ} : {A : Type ℓ} → Step → M (Outcome A)
stop_with s = pure (stopped (s ∷ []))

-- `try: m`, where an exception fails the step and ends the handler.
unfoldable pub or_stop {ℓ} : {A : Type ℓ} → String → Step → M (Outcome A) → M (Outcome A)
unfolding fails_with
or_stop prefix s m = catch m (λ e. fails_with prefix s e >>= λ failure. stop_with failure)

-- `try: m`, where an exception fails the step and the handler goes on.
unfoldable pub or_fail : String → Step → M Step → M Step
unfolding fails_with
or_fail prefix s m = catch m (fails_with prefix s)

abbrev pub any_failed : List Step → Bool
any_failed [] = false
any_failed (s ∷ steps) = has_status "error" s || any_failed steps
