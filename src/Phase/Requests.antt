-- ===== src/Phase/Requests.antt =====
-- Which events the phases have.
use agent_identity_demos.Prelude.{String}
use agent_identity_demos.Effects.{Exn, M, World}
use agent_identity_demos.Effects.Sends.{Policy, Sends, Sends-bind, Sends-pure, Sends-catch}
use agent_identity_demos.Step.{Step, fails_with, Outcome}
use agent_identity_demos.Phase.{passed, stopped, next_phase, ◌>=>◌, or_fail, or_stop}

-- The requests of a phase that is tried, and of a row of phases.
module _ {P : Policy} {w : World} where
  pub Sends-fails_with : (prefix : String) (s : Step) (e : Exn) → Sends P (fails_with prefix s e) w
  unfolding fails_with
  Sends-fails_with prefix s e = record { sends = λ h p. p }

  pub Sends-or_fail :
      (prefix : String) (s : Step) (m : M Step) → Sends P m w → Sends P (or_fail prefix s m) w
  unfolding or_fail
  Sends-or_fail prefix s m q = Sends-catch _ _ q (Sends-fails_with prefix s)

  pub Sends-or_stop :
      {A : Type 0} (prefix : String) (s : Step) (m : M (Outcome A))
      → Sends P m w
      → Sends P (or_stop prefix s m) w
  unfolding or_stop
  Sends-or_stop prefix s m q =
      Sends-catch _ _ q (λ e. Sends-bind _ _ (Sends-fails_with prefix s e) (λ t. Sends-pure _))

  Sends-next_phase :
      {A B : Type 0} (outcome : Outcome A) (k : A → M (Outcome B))
      → ((a : A) → Sends P (k a) w)
      → Sends P (next_phase outcome k) w
  Sends-next_phase (stopped steps) k next = Sends-pure _
  Sends-next_phase (passed steps a) k next = Sends-bind _ _ (next a) (λ outcome. Sends-pure _)

  pub Sends-phases :
      {A B : Type 0} (m : M (Outcome A)) (k : A → M (Outcome B))
      → Sends P m w
      → ((a : A) → Sends P (k a) w)
      → Sends P (m >=> k) w
  unfolding ◌>=>◌
  Sends-phases m k first next = Sends-bind _ _ first (λ outcome. Sends-next_phase outcome k next)

pub ruleset phase_rules = (Sends-fails_with, Sends-or_fail, Sends-or_stop, Sends-phases)
