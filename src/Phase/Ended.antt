-- ===== src/Phase/Ended.antt =====
-- Phases that never raise: whatever the world answers, they pass a value on, or end the handler with a
-- step that failed.
use agent_identity_demos.Prelude.{
  String, ◌≡◌, refl, true, List, [], ◌∷◌, ◌++◌, arith, inl, inr, Bool-cases, string_eq,
}
use agent_identity_demos.Effects.{Exn, World, M}
use agent_identity_demos.Effects.Total.{Holds, Always, Always-pure, Always-catch, Always-bind}
use agent_identity_demos.Step.{Step, failed, has_status, fails_with, Outcome, stopped, passed}
use agent_identity_demos.Phase.Passed.{status-failed}
use agent_identity_demos.Phase.{
  append_steps, next_phase, ◌>=>◌, go_on, or_stop, or_fail, any_failed,
}

-- A handler that has ended reports a step that failed.
abbrev pub Ends {ℓ} : {A : Type ℓ} → Outcome A → Type 0
Ends (stopped steps) = any_failed steps ≡ true
Ends (passed steps a) = Unit

pub any_failed-failed : (text : String) (s : Step) → any_failed (failed text s ∷ []) ≡ true
any_failed-failed text s = rw (status-failed text s)

pub Ends-go_on {ℓ} : {A : Type ℓ} (a : A) (s : Step) → Ends (go_on a s)
Ends-go_on a s = elim (Bool-cases (has_status "error" s)) [
  | inl bad ↦ rw (bad, bad)
  | inr good ↦ rw good tt
]

any_failed-append :
    (before steps : List Step) → any_failed steps ≡ true → any_failed (before ++ steps) ≡ true
any_failed-append [] steps p = p
any_failed-append (s ∷ before) steps p = ground (arith, any_failed-append before steps p)

Ends-append :
    {A : Type 0} (before : List Step) (outcome : Outcome A)
    → Ends outcome
    → Ends (append_steps before outcome)
Ends-append before (stopped steps) p = any_failed-append before steps p
Ends-append before (passed steps a) p = tt

module _ {w : World} where
  pub Always-fails_with :
      (prefix : String) (s : Step) (e : Exn) → Always (λ t. Unit {0}) (fails_with prefix s e) w
  unfolding fails_with
  Always-fails_with prefix s e = record { always = λ h. (_, h, refl, tt) }

  Ends-fails_with :
      (prefix : String) (s : Step) (e : Exn)
      → Always (λ t. has_status "error" t ≡ true) (fails_with prefix s e) w
  unfolding fails_with
  Ends-fails_with prefix s e = record { always = λ h. (_, h, refl, status-failed _ s) }

  pub Always-or_stop :
      {A : Type 0} (prefix : String) (s : Step) (m : M (Outcome A))
      → Holds Ends m w
      → Always Ends (or_stop prefix s m) w
  unfolding or_stop
  Always-or_stop prefix s m q =
      Always-catch _ _ q
        (λ e. Always-bind _ _ (Ends-fails_with prefix s e) (λ t bad. Always-pure _ (rw bad)))

  pub Always-or_fail :
      (prefix : String) (s : Step) (m : M Step) → Always (λ t. Unit {0}) (or_fail prefix s m) w
  unfolding or_fail
  Always-or_fail prefix s m =
      Always-catch _ _ (record { holds = λ q. tt }) (Always-fails_with prefix s)

  Always-next_phase :
      {A B : Type 0} (outcome : Outcome A) (k : A → M (Outcome B))
      → Ends outcome
      → ((a : A) → Always Ends (k a) w)
      → Always Ends (next_phase outcome k) w
  Always-next_phase (stopped steps) k p next = Always-pure _ p
  Always-next_phase (passed steps a) k p next =
      Always-bind _ _ (next a) (λ outcome q. Always-pure _ (Ends-append steps outcome q))

  pub Always-phases :
      {A B : Type 0} (m : M (Outcome A)) (k : A → M (Outcome B))
      → Always Ends m w
      → ((a : A) → Always Ends (k a) w)
      → Always Ends (m >=> k) w
  unfolding ◌>=>◌
  Always-phases m k first next =
      Always-bind _ _ first (λ outcome p. Always-next_phase outcome k p next)
