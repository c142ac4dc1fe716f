-- ===== src/Effects/Sends.antt =====
-- What holds of every call that an action makes of a service, whether it returns or raises: its
-- requests, the fetches of keys by PyJWT, and the gRPC calls of the Directory.
use agent_identity_demos.Prelude.{String, Bool, true, false, if◌then◌else◌, [], ◌∷◌}
use agent_identity_demos.Value.{Value}
use agent_identity_demos.Effects.{
  ℕ, Exn, Result, ok, err, M, World, History, continue, rescue, ◌>>=◌, pure, raise, lift, asks,
  catch, attempt, require, as_dict, json, Response, Request, request, time, uuid4, token_hex,
  jwt_header, jwt_decode, signing_key, DecodeOptions, Event, sent, fetched_key, pushed, searched,
  pinged, pushed_all, read_clock, drew_uuid, drew_token, slept, cached,
}

-- The calls of services that are allowed: which requests, which fetches of a key for a token, which
-- pushes of a record to the Directory, and which searches there. Nothing else leaves.
pub record Policy : Type 1 where
  pub may_send : Request → Type 0
  pub may_fetch : String → String → Type 0
  pub may_push : String → Value → Type 0
  pub may_search : String → String → Type 0

abbrev pub Permitted : Policy → Event → Type 0
Permitted P (sent r) = P.may_send r
Permitted P (fetched_key url token) = P.may_fetch url token
Permitted P (pushed url v) = P.may_push url v
Permitted P (searched url name) = P.may_search url name
Permitted P (pinged url) = ⊥
Permitted P (pushed_all url vs) = ⊥
Permitted P read_clock = Unit
Permitted P drew_uuid = Unit
Permitted P drew_token = Unit
Permitted P (slept n) = Unit
Permitted P (cached a k jwk) = Unit

abbrev pub Each : Policy → History → Type 0
Each P [] = Unit
Each P (e ∷ h) = Permitted P e × Each P h

-- `m` does only what `P` allows: if all events so far are allowed, so are all events after it.
pub record Sends {ℓ} {A : Type ℓ} (P : Policy) (m : M A) (w : World) : Type ℓ where
  pub sends : (h : History) → Each P h → Each P (m w h).1

module _ {ℓ} {A : Type ℓ} {P : Policy} {w : World} where
  pub Sends-pure : (a : A) → Sends P (pure a) w
  unfolding pure
  Sends-pure a = record { sends = λ h p. p }

  pub Sends-raise : (e : Exn) → Sends P (raise {A = A} e) w
  unfolding raise
  Sends-raise e = record { sends = λ h p. p }

  pub Sends-lift : (r : Result A) → Sends P (lift r) w
  unfolding lift
  Sends-lift r = record { sends = λ h p. p }

  pub Sends-asks : (f : World → A) → Sends P (asks f) w
  unfolding asks
  Sends-asks f = record { sends = λ h p. p }

  Each-rescue :
      (x : Result A × History) (k : Exn → M A)
      → ((e : Exn) → Sends P (k e) w)
      → Each P x.1
      → Each P ((rescue x k w).1)
  Each-rescue (ok a, h) k next p = p
  Each-rescue (err e, h) k next p = (next e).sends h p

  pub Sends-catch :
      (m : M A) (k : Exn → M A)
      → Sends P m w
      → ((e : Exn) → Sends P (k e) w)
      → Sends P (catch m k) w
  unfolding catch
  Sends-catch m k first next = record {
    sends = λ h p. Each-rescue (m w h) k next (first.sends h p);
  }

  pub Sends-if : (b : Bool) (m n : M A) → Sends P m w → Sends P n w → Sends P (if b then m else n) w
  Sends-if true m n p q = p
  Sends-if false m n p q = q

module _ {P : Policy} {w : World} where
  pub Sends-request : (q : Request) → P.may_send q → Sends P (request q) w
  unfolding request
  Sends-request q good = record { sends = λ h p. (good, p) }

  pub Sends-require : (b : Bool) (e : Exn) → Sends P (require b e) w
  unfolding require ◌>>=◌
  Sends-require true e = record { sends = λ h p. p }
  Sends-require false e = record { sends = λ h p. p }

  pub Sends-as_dict : (v : Value) → Sends P (as_dict v) w
  unfolding as_dict ◌>>=◌
  Sends-as_dict v = record { sends = λ h p. p }

  pub Sends-json : (r : Response) → Sends P (json r) w
  unfolding json ◌>>=◌
  Sends-json r = record { sends = λ h p. p }

  pub Sends-time : Sends P time w
  unfolding time
  Sends-time = record { sends = λ h p. (tt, p) }

  pub Sends-uuid4 : Sends P uuid4 w
  unfolding uuid4
  Sends-uuid4 = record { sends = λ h p. (tt, p) }

  pub Sends-token_hex : (n : ℕ) → Sends P (token_hex n) w
  unfolding token_hex
  Sends-token_hex n = record { sends = λ h p. (tt, p) }

  pub Sends-jwt_header : (token : String) → Sends P (jwt_header token) w
  unfolding jwt_header
  Sends-jwt_header token = record { sends = λ h p. p }

  pub Sends-jwt_decode :
      (token key : String) (o : DecodeOptions) → Sends P (jwt_decode token key o) w
  unfolding jwt_decode
  Sends-jwt_decode token key o = record { sends = λ h p. p }

  pub Sends-signing_key :
      (url token : String) → P.may_fetch url token → Sends P (signing_key url token) w
  unfolding signing_key
  Sends-signing_key url token good = record { sends = λ h p. (good, p) }

module _ {ℓ κ} {A : Type ℓ} {B : Type κ} {P : Policy} {w : World} where
  Each-continue :
      (x : Result A × History) (k : A → M B)
      → ((a : A) → Sends P (k a) w)
      → Each P x.1
      → Each P ((continue x k w).1)
  Each-continue (ok a, h) k next p = (next a).sends h p
  Each-continue (err e, h) k next p = p

  pub Sends-bind :
      (m : M A) (k : A → M B) → Sends P m w → ((a : A) → Sends P (k a) w) → Sends P (m >>= k) w
  unfolding ◌>>=◌
  Sends-bind m k first next = record {
    sends = λ h p. Each-continue (m w h) k next (first.sends h p);
  }

pub Sends-attempt {ℓ} :
    {A : Type ℓ} {P : Policy} {w : World} (m : M A) → Sends P m w → Sends P (attempt m) w
unfolding attempt
Sends-attempt m q = record { sends = λ h p. q.sends h p }

pub ruleset sends_rules = (
  Sends-pure, Sends-raise, Sends-lift, Sends-asks, Sends-catch, Sends-if, Sends-request,
  Sends-require, Sends-as_dict, Sends-json, Sends-time, Sends-uuid4, Sends-token_hex,
  Sends-jwt_header, Sends-jwt_decode, Sends-signing_key, Sends-bind,
)
