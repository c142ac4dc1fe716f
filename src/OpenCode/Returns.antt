-- ===== src/OpenCode/Returns.antt =====
-- The model's steps of cross-domain-id-jag-vc/opencode-agent/app.py never end the task: whatever the
-- model server does, the plan and the scan come back with a step, and its status is a good one.
use agent_identity_demos.Prelude.{
  arith, String, ◌≡◌, Bool, true, false, ◌⊎◌, inl, inr, ap, string_eq, if◌then◌else◌,
}
use agent_identity_demos.Prelude.Text.{is_empty}
use agent_identity_demos.Value.{Value, Fields, str, get_default, get_default-set_item}
use agent_identity_demos.Effects.{Result, ok, err, World}
use agent_identity_demos.Effects.Values.{as_text}
use agent_identity_demos.Effects.Total.{
  Holds, Always, Holds-pure, Holds-bind, Holds-if, Always-pure, Always-asks, Always-lift,
  Always-catch, Always-bind, Always-attempt,
}
use agent_identity_demos.Step.{Step, reported}
use agent_identity_demos.OpenCode.Config.{Config}
use agent_identity_demos.OpenCode.Model.{opencode_plan, plan_answered, plan_real, probed}
use agent_identity_demos.OpenCode.Ticket.{step_ok}

-- The step does not spoil the task.
abbrev pub Good : Step → Type 0
Good s = step_ok (get_default "status" (str "error") s) ≡ true

pub get_default-reported :
    (status : String) (d result : Value) (s : Step)
    → get_default "status" d (reported status result s) ≡ str status
unfolding string_eq
get_default-reported status d result s = rw (
  get_default-set_item "result" "status" d result,
  get_default-set_item "status" "status" d (str status) s,
)

ok-Good : (result : Value) (s : Step) → Good (reported "ok" result s)
unfolding step_ok string_eq
ok-Good result s = rw (get_default-reported "ok" (str "error") result s)

skipped-Good : (result : Value) (s : Step) → Good (reported "skipped" result s)
unfolding step_ok string_eq
skipped-Good result s = rw (get_default-reported "skipped" (str "error") result s)

plan-Good :
    (b : Bool) (skipped done : Value) (s : Step)
    → Good (if b then reported "skipped" skipped s else reported "ok" done s)
plan-Good true skipped done s = skipped-Good skipped s
plan-Good false skipped done s = ok-Good done s

module _ (cfg : Config) (w : World) where
  plan_answered-Good :
      (s : Step) (session_id : Value) (reply : Fields)
      → Holds Good (plan_answered cfg s session_id reply) w
  unfolding plan_answered
  plan_answered-Good s session_id reply = Holds-bind _ _ (λ info_error.
      Holds-if _ _ _ (Holds-bind _ _ (λ message. Holds-pure _ (skipped-Good _ s)))
        (Holds-bind _ _ (λ plan_text. Holds-pure _ (plan-Good (is_empty plan_text) _ _ s))))

  plan_real-Good :
      (cve : Value) (repo scoped_intent : String) (s : Step)
      → Always Good (plan_real cfg cve repo scoped_intent s) w
  plan_real-Good cve repo scoped_intent s =
      Always-bind _ _ (Always-asks {P = λ shown. Unit {0}} _ tt) (λ shown u.
        Always-catch _ _ (Holds-bind _ _ (λ asked. plan_answered-Good s asked.0 asked.1))
          (λ e. Always-asks _ (skipped-Good _ s)))

  probed-Good :
      (cve : Value) (repo scoped_intent : String) (s : Step) (r : Result (Unit {0}))
      → Always Good (probed cfg cve repo scoped_intent s r) w
  probed-Good cve repo scoped_intent s (ok u) = plan_real-Good cve repo scoped_intent s
  probed-Good cve repo scoped_intent s (err e) = Always-asks _ (skipped-Good _ s)

  -- Whatever the model server answers, the plan with a real model returns a step that is done or
  -- skipped; the plan without one does so for an identifier that is a text.
  pub opencode_plan-Good :
      (cve : Value) (repo scoped_intent : String) (use_real : Bool)
      → (use_real ≡ true) ⊎ ((id : String) × (cve ≡ str id))
      → Always Good (opencode_plan cfg cve repo scoped_intent use_real) w
  unfolding opencode_plan
  opencode_plan-Good cve repo scoped_intent true why =
      Always-bind _ _ (Always-attempt _ w) (λ r u. probed-Good cve repo scoped_intent _ r)
  opencode_plan-Good cve repo scoped_intent false (inl absurd_) = absurd (ground (arith, absurd_))
  opencode_plan-Good cve repo scoped_intent false (inr (id, is_text)) =
      Always-bind _ _ (Always-asks {P = λ shown. Unit {0}} _ tt) (λ shown u.
        Always-bind _ _ (Always-lift {P = λ text. Unit {0}} _ id (ap as_text is_text) tt)
          (λ text v. Always-pure _ (ok-Good _ _)))
