-- ===== src/Effects/Guards.antt =====
-- Handlers that check a row of conditions, send one request, and answer.
use agent_identity_demos.Prelude.{
  ◌≡◌, refl, ap, inl, inr, Bool, true, false, ◌&&◌, List, [], ◌∷◌, ◌++◌, if◌then◌else◌,
}
use agent_identity_demos.Effects.{
  Exn, Result, Result-cases, ok, err, M, World, History, continue, ◌>>=◌, pure, require, Request,
  Response, request, requests, sent,
}

-- The exception of the first check that fails, or the result.
abbrev pub first_error {ℓ} : {A : Type ℓ} → List (Bool × Exn) → Result A → Result A
first_error [] r = r
first_error ((b, e) ∷ checks) r = if b then first_error checks r else err e

abbrev pub all_pass : List (Bool × Exn) → Bool
all_pass [] = true
all_pass ((b, e) ∷ checks) = b && all_pass checks

module _ {ℓ} {B : Type ℓ} (w : World) where
  -- A request, and then what leaves the events alone.
  pub requests-request :
      (h : History) (q : Request) (k : Response → M B)
      → ((r : Response) (h' : History) → (k r w h').1 ≡ h')
      → requests ((request q >>= k) w h).1 ≡ q ∷ requests h
  unfolding request requests ◌>>=◌
  requests-request h q k quiet = elim (Result-cases (w.send h q)) [
    | inl (r, e) ↦ rw e (ap requests (quiet r (sent q ∷ h)))
    | inr (x, e) ↦ rw e
  ]

-- `m` leaves the events at `h` and returns `a`, but for the first check that fails.
pub record Checks {ℓ} {A : Type ℓ} (m : M A) (w : World) (h : History) (checks : List (Bool × Exn))
    (a : A) : Type ℓ where
  pub runs : m w h ≡ (first_error checks (ok a), h)

module _ (w : World) (h : History) where
  pub Checks-require : (b : Bool) (e : Exn) → Checks (require b e) w h ((b, e) ∷ []) tt
  unfolding require
  Checks-require true e = record { runs = refl }
  Checks-require false e = record { runs = refl }

  pub Checks-pure {ℓ} : {A : Type ℓ} (a : A) → Checks (pure a) w h [] a
  unfolding pure
  Checks-pure a = record { runs = refl }

module _ {ℓ κ} {A : Type ℓ} {B : Type κ} (w : World) (h : History) where
  continue-first_error :
      (cs ds : List (Bool × Exn)) (a : A) (k : A → M B) (b : B)
      → Checks (k a) w h ds b
      → continue (first_error cs (ok a), h) k w ≡ (first_error (cs ++ ds) (ok b), h)
  continue-first_error [] ds a k b e = e.runs
  continue-first_error ((true, x) ∷ cs) ds a k b e = continue-first_error cs ds a k b e
  continue-first_error ((false, x) ∷ cs) ds a k b e = refl

  -- The checks of one action, and then those of the next.
  pub Checks-bind :
      (m : M A) (k : A → M B) (cs ds : List (Bool × Exn)) (a : A) (b : B)
      → Checks m w h cs a
      → Checks (k a) w h ds b
      → Checks (m >>= k) w h (cs ++ ds) b
  unfolding ◌>>=◌
  Checks-bind m k cs ds a b first next = record {
    runs = rw first.runs (continue-first_error cs ds a k b next);
  }

  requests-first_error :
      (checks : List (Bool × Exn)) (a : A) (k : A → M B) (q : Request)
      → requests (k a w h).1 ≡ q ∷ requests h
      → requests (continue (first_error checks (ok a), h) k w).1
        ≡ (if all_pass checks then q ∷ requests h else requests h)
  requests-first_error [] a k q asks = asks
  requests-first_error ((true, x) ∷ checks) a k q asks = requests-first_error checks a k q asks
  requests-first_error ((false, x) ∷ checks) a k q asks = refl

  -- Behind such checks a request is sent just when all of them pass.
  pub requests-guarded :
      (m : M A) (k : A → M B) (checks : List (Bool × Exn)) (a : A) (q : Request)
      → Checks m w h checks a
      → requests (k a w h).1 ≡ q ∷ requests h
      → requests ((m >>= k) w h).1 ≡ (if all_pass checks then q ∷ requests h else requests h)
  unfolding ◌>>=◌
  requests-guarded m k checks a q e asks = rw e.runs (requests-first_error checks a k q asks)

pub Checks-require_bind {ℓ} :
    {B : Type ℓ} (w : World) (h : History) (b : Bool) (e : Exn) (k : Unit {0} → M B)
    (checks : List (Bool × Exn)) (a : B)
    → Checks (k tt) w h checks a
    → Checks (require b e >>= k) w h ((b, e) ∷ checks) a
Checks-require_bind w h b e k checks a next =
    Checks-bind w h (require b e) k ((b, e) ∷ []) checks tt a (Checks-require w h b e) next

pub ruleset checks_rules = (Checks-require, Checks-pure, Checks-require_bind)
