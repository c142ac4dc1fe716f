-- ===== src/Phase/Passed.antt =====
-- What a row of phases has gone through if it passed.
use agent_identity_demos.Prelude.{
  sym, String, ◌<>◌, ◌≡◌, refl, ◌∙◌, ap, true, false, List, arith, inl, inr, Bool-cases, string_eq,
}
use agent_identity_demos.Value.{null, str, get_default-set_item}
use agent_identity_demos.Effects.{pure, Exn, ok, World, History, M, ◌>>=◌, exn_text}
use agent_identity_demos.Effects.Invert.{catch-ok, Returns, bind-ok, pure-ok}
use agent_identity_demos.Step.{Step, failed, has_status, fails_with, Outcome, stopped, passed}
use agent_identity_demos.Phase.{or_fail, or_stop, append_steps, next_phase, ◌>=>◌, go_on}

-- A phase that passes has gone through the one before.
appended :
    {B : Type 0} {steps : List Step} {b : B} (before : List Step) (o : Outcome B)
    → passed steps b ≡ append_steps before o
    → (after : List Step) × (o ≡ passed after b)
appended before (stopped after) p = absurd (ground (arith, p))
appended before (passed after c) p = (after, ground (arith, p))

module _ {A B : Type 0} {w : World} {h h' : History} {steps : List Step} {b : B} where
  next_phase-passed :
      (o : Outcome A) (k : A → M (Outcome B))
      → Returns (next_phase o k) w h (passed steps b) h'
      → (before : List Step) × (a : A) × (o ≡ passed before a)
        × (after : List Step) × (h1 : History) × Returns (k a) w h (passed after b) h1
  next_phase-passed (stopped before) k p = absurd (ground (arith, pure-ok _ _ _ _ _ p))
  next_phase-passed (passed before a) k p =
      let (o, h1, q, r) = bind-ok _ _ p in
      let (after, same) = appended before o (pure-ok _ _ _ _ _ r) in
      (before, a, refl, after, h1, record { returns = q.returns ∙ ap (λ x. (ok x, h1)) same })

module _ {A B : Type 0} {w : World} {h h' : History} {steps : List Step} {b : B} where
  pub phase-passed :
      (m : M (Outcome A)) (k : A → M (Outcome B))
      → Returns (m >=> k) w h (passed steps b) h'
      → (before : List Step) × (a : A) × (h1 : History) × Returns m w h (passed before a) h1
        × (after : List Step) × (h2 : History) × Returns (k a) w h1 (passed after b) h2
  unfolding ◌>=>◌
  phase-passed m k p =
      let (o, h1, q, r) = bind-ok _ _ p in
      let (before, a, same, after, h2, r') = next_phase-passed o k r in
      (before, a, h1, record { returns = q.returns ∙ ap (λ x. (ok x, h1)) same }, after, h2, r')

pub go_on-passed :
    {A : Type 0} (a b : A) (s : Step) (steps : List Step)
    → passed steps b ≡ go_on a s
    → has_status "error" s ≡ false
go_on-passed a b s steps p = elim (Bool-cases (has_status "error" s)) [
  | inl yes_ ↦ absurd (ground (arith, rw yes_ at p))
  | inr no_ ↦ no_
]

pub passed_eq : {A : Type 0} (a b : A) (xs ys : List Step) → passed xs a ≡ passed ys b → a ≡ b
passed_eq a b xs ys p = ground (arith, p)

pub true-false : true ≡ false → ⊥
true-false p = ground (arith, p)

pub fails_with-ok :
    (prefix : String) (s : Step) (e : Exn) (w : World) (h h' : History) (t : Step)
    → Returns (fails_with prefix s e) w h t h'
    → t ≡ failed (prefix <> exn_text w e) s
unfolding fails_with
fails_with-ok prefix s e w h h' t p = ground (arith, p.returns)

pub status-failed : (text : String) (s : Step) → has_status "error" (failed text s) ≡ true
unfolding string_eq
status-failed text s = rw (
  get_default-set_item "error" "status" null (str text),
  get_default-set_item "status" "status" null (str "error") s,
)

-- What was tried has passed.
pub or_stop-passed :
    {A : Type 0} (prefix : String) (s : Step) (m : M (Outcome A)) (w : World) (h h' : History)
    (steps : List Step) (a : A)
    → Returns (or_stop prefix s m) w h (passed steps a) h'
    → Returns m w h (passed steps a) h'
unfolding or_stop
or_stop-passed prefix s m w h h' steps a p = elim (catch-ok _ _ _ p) [
  | inl q ↦ q
  | inr (e, h1, q) ↦
      let (t, h2, failing, q1) = bind-ok _ _ q in absurd (ground (arith, pure-ok _ _ _ _ _ q1))
]

-- A step that did not fail is what was tried.
pub or_fail-passed :
    (prefix : String) (s t : Step) (m : M Step) (w : World) (h h' : History)
    → Returns (or_fail prefix s m) w h t h'
    → has_status "error" t ≡ false
    → Returns m w h t h'
unfolding or_fail
or_fail-passed prefix s t m w h h' p good = elim (catch-ok _ _ _ p) [
  | inl q ↦ q
  | inr (e, h1, q) ↦ absurd (
      true-false (
        sym (status-failed _ _)
        ∙ ap (has_status "error") (sym (fails_with-ok _ _ _ _ _ _ _ q))
        ∙ good))
]

-- A phase that passes with the step that was tried.
pub go_on_bind-passed :
    {A : Type 0} (prefix : String) (s : Step) (m : M Step) (a b : A) (w : World) (h h' : History)
    (steps : List Step)
    → Returns (or_fail prefix s m >>= λ t. pure (go_on a t)) w h (passed steps b) h'
    → (t : Step) × (h1 : History) × Returns m w h t h1 × (has_status "error" t ≡ false)
go_on_bind-passed prefix s m a b w h h' steps p =
    let (t, h1, done, p1) = bind-ok _ _ p in
    let good = go_on-passed _ _ t steps (pure-ok _ _ _ _ _ p1) in
    (t, h1, or_fail-passed prefix s t m w h h1 done good, good)
