-- ===== src/Effects/Quiet.antt =====
-- Actions without an event: they read the history at most, and ask nothing of the world outside
-- (`jwt.decode` with a key at hand included), whatever comes of them.
use agent_identity_demos.Prelude.{String, ◌≡◌, refl, ap, ◌∙◌, Bool, true, false, if◌then◌else◌}
use agent_identity_demos.Value.{Value}
use agent_identity_demos.Effects.{
  Exn, Result, ok, err, M, World, History, continue, rescue, ◌>>=◌, pure, lift, asks, catch,
  require, as_dict, json, Response, jwt_header, jwt_decode, DecodeOptions, requests,
}

pub record Quiet {ℓ} {A : Type ℓ} (m : M A) (w : World) : Type ℓ where
  pub quiet : (h : History) → (m w h).1 ≡ h

module _ {ℓ} {A : Type ℓ} {w : World} where
  pub Quiet-pure : (a : A) → Quiet (pure a) w
  unfolding pure
  Quiet-pure a = record { quiet = λ h. refl }

  pub Quiet-lift : (r : Result A) → Quiet (lift r) w
  unfolding lift
  Quiet-lift r = record { quiet = λ h. refl }

  pub Quiet-asks : (f : World → A) → Quiet (asks f) w
  unfolding asks
  Quiet-asks f = record { quiet = λ h. refl }

  rescue-Quiet :
      (x : Result A × History) (k : Exn → M A)
      → ((e : Exn) → Quiet (k e) w)
      → (rescue x k w).1 ≡ x.1
  rescue-Quiet (ok a, h) k next = refl
  rescue-Quiet (err e, h) k next = (next e).quiet h

  pub Quiet-catch :
      (m : M A) (k : Exn → M A) → Quiet m w → ((e : Exn) → Quiet (k e) w) → Quiet (catch m k) w
  unfolding catch
  Quiet-catch m k first next = record { quiet = λ h. rescue-Quiet (m w h) k next ∙ first.quiet h }

  pub Quiet-if : (b : Bool) (m n : M A) → Quiet m w → Quiet n w → Quiet (if b then m else n) w
  Quiet-if true m n p q = p
  Quiet-if false m n p q = q

module _ {w : World} where
  pub Quiet-require : (b : Bool) (e : Exn) → Quiet (require b e) w
  unfolding require ◌>>=◌
  Quiet-require true e = record { quiet = λ h. refl }
  Quiet-require false e = record { quiet = λ h. refl }

  pub Quiet-as_dict : (v : Value) → Quiet (as_dict v) w
  unfolding as_dict ◌>>=◌
  Quiet-as_dict v = record { quiet = λ h. refl }

  pub Quiet-json : (r : Response) → Quiet (json r) w
  unfolding json ◌>>=◌
  Quiet-json r = record { quiet = λ h. refl }

  pub Quiet-jwt_header : (token : String) → Quiet (jwt_header token) w
  unfolding jwt_header
  Quiet-jwt_header token = record { quiet = λ h. refl }

  pub Quiet-jwt_decode : (token key : String) (o : DecodeOptions) → Quiet (jwt_decode token key o) w
  unfolding jwt_decode
  Quiet-jwt_decode token key o = record { quiet = λ h. refl }

module _ {ℓ κ} {A : Type ℓ} {B : Type κ} {w : World} where
  continue-Quiet :
      (x : Result A × History) (k : A → M B) → ((a : A) → Quiet (k a) w) → (continue x k w).1 ≡ x.1
  continue-Quiet (ok a, h) k next = (next a).quiet h
  continue-Quiet (err e, h) k next = refl

  pub Quiet-bind :
      (m : M A) (k : A → M B) → Quiet m w → ((a : A) → Quiet (k a) w) → Quiet (m >>= k) w
  unfolding ◌>>=◌
  Quiet-bind m k first next = record { quiet = λ h. continue-Quiet (m w h) k next ∙ first.quiet h }

  -- What follows quietly leaves the requests alone.
  pub requests-bind :
      (m : M A) (k : A → M B) (h : History)
      → ((a : A) → Quiet (k a) w)
      → requests ((m >>= k) w h).1 ≡ requests (m w h).1
  unfolding ◌>>=◌
  requests-bind m k h next = ap requests (continue-Quiet (m w h) k next)

  -- An action after one that is known to return.
  pub bind-returns :
      (m : M A) (k : A → M B) (h h' : History) (a : A)
      → m w h ≡ (ok a, h')
      → (m >>= k) w h ≡ k a w h'
  unfolding ◌>>=◌
  bind-returns m k h h' a p = rw p

pub ruleset quiet_rules = (
  Quiet-pure, Quiet-lift, Quiet-asks, Quiet-require, Quiet-as_dict, Quiet-json, Quiet-jwt_header,
  Quiet-jwt_decode, Quiet-bind, Quiet-catch,
)
