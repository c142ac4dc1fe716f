-- ===== src/Effects/Invert.antt =====
-- What an action that returned has gone through.
use agent_identity_demos.Prelude.{
  Option, none, some, if◌then◌else◌, ◌≡◌, refl, Bool, true, false, ◌∷◌, String, arith, ◌⊎◌, inl,
  inr,
}
use agent_identity_demos.Value.{Value, Fields, obj}
use agent_identity_demos.Effects.{
  Exn, Result, ok, err, M, World, History, continue, rescue, catch, ◌>>=◌, lift, asks, pure,
  require, as_dict, jwt_header, signing_key, jwt_decode, fetched_key, DecodeOptions, Request,
  Response, request, sent, json, json_result,
}

module _ {ℓ κ} {A : Type ℓ} {B : Type κ} (w : World) where
  continue-ok :
      (x : Result A × History) (k : A → M B) (b : B) (h' : History)
      → continue x k w ≡ (ok b, h')
      → (a : A) × (h1 : History) × (x ≡ (ok a, h1)) × (k a w h1 ≡ (ok b, h'))
  continue-ok (ok a, h1) k b h' p = (a, h1, refl, p)
  continue-ok (err e, h1) k b h' p = ground arith

-- `m` returns `a` from the events `h` on, and leaves them at `h'`.
pub record Returns {ℓ} {A : Type ℓ} (m : M A) (w : World) (h : History) (a : A) (h' : History)
    : Type ℓ where
  pub returns : m w h ≡ (ok a, h')

module _ {κ} {B : Type κ} {w : World} {h h' : History} {b : B} where
  pub bind-ok {ℓ} :
      {A : Type ℓ} (m : M A) (k : A → M B)
      → Returns (m >>= k) w h b h'
      → (a : A) × (h1 : History) × Returns m w h a h1 × Returns (k a) w h1 b h'
  unfolding ◌>>=◌
  bind-ok m k p =
      let (a, h1, q, r) = continue-ok w (m w h) k b h' p.returns in
      (a, h1, record { returns = q }, record { returns = r })

  pub lift_bind-ok {ℓ} :
      {A : Type ℓ} (r : Result A) (k : A → M B)
      → Returns (lift r >>= k) w h b h'
      → (a : A) × (r ≡ ok a) × Returns (k a) w h b h'
  unfolding ◌>>=◌
  lift_bind-ok (ok a) k p = (a, refl, record { returns = p.returns })
  lift_bind-ok (err e) k p = absurd (ground (arith, p.returns))

  pub asks_bind-ok {ℓ} :
      {A : Type ℓ} (f : World → A) (k : A → M B)
      → Returns (asks f >>= k) w h b h'
      → Returns (k (f w)) w h b h'
  unfolding ◌>>=◌
  asks_bind-ok f k p = record { returns = p.returns }

  pub require_bind-ok :
      (t : Bool) (e : Exn) (k : Unit {0} → M B)
      → Returns (require t e >>= k) w h b h'
      → (t ≡ true) × Returns (k tt) w h b h'
  unfolding require ◌>>=◌
  require_bind-ok true e k p = (refl, record { returns = p.returns })
  require_bind-ok false e k p = absurd (ground (arith, p.returns))

  pub as_dict_bind-ok :
      (v : Value) (k : Fields → M B)
      → Returns (as_dict v >>= k) w h b h'
      → (fs : Fields) × (v ≡ obj fs) × Returns (k fs) w h b h'
  unfolding as_dict ◌>>=◌
  as_dict_bind-ok (obj fs) k p = (fs, refl, record { returns = p.returns })
  as_dict_bind-ok _ k p = absurd (ground (arith, p.returns))

pub require-ok :
    (t : Bool) (e : Exn) (w : World) (h h' : History) (u : Unit {0})
    → Returns (require t e) w h u h'
    → t ≡ true
unfolding require ◌>>=◌
require-ok true e w h h' u p = refl
require-ok false e w h h' u p = absurd (ground (arith, p.returns))

pub pure-ok {ℓ} :
    {A : Type ℓ} (a b : A) (w : World) (h h' : History) → Returns (pure a) w h b h' → b ≡ a
unfolding pure
pure-ok a b w h h' p = ground (arith, p.returns)

module _ {ℓ κ} {A : Type ℓ} {B : Type κ} {w : World} where
  answer-ok :
      (r : Result A) (h h' : History) (k : A → M B) (b : B)
      → continue (r, h) k w ≡ (ok b, h')
      → (a : A) × (r ≡ ok a) × Returns (k a) w h b h'
  answer-ok (ok a) h h' k b p = (a, refl, record { returns = p })
  answer-ok (err e) h h' k b p = absurd (ground (arith, p))

pub lift-ok {ℓ} :
    {A : Type ℓ} (r : Result A) (a : A) (w : World) (h h' : History)
    → Returns (lift r) w h a h'
    → r ≡ ok a
unfolding lift
lift-ok r a w h h' p = ground (arith, p.returns)

-- The calls of PyJWT, and the events after them.
module _ {κ} {B : Type κ} {w : World} {h h' : History} {b : B} where
  pub jwt_header_bind-ok :
      (token : String) (k : Fields → M B)
      → Returns (jwt_header token >>= k) w h b h'
      → (header : Fields) × (w.jwt_header token ≡ ok header) × Returns (k header) w h b h'
  unfolding jwt_header ◌>>=◌
  jwt_header_bind-ok token k p = answer-ok (w.jwt_header token) h h' k b p.returns

  pub signing_key_bind-ok :
      (url token : String) (k : String → M B)
      → Returns (signing_key url token >>= k) w h b h'
      → (key : String) × (w.signing_key h url token ≡ ok key)
        × Returns (k key) w (fetched_key url token ∷ h) b h'
  unfolding signing_key ◌>>=◌
  signing_key_bind-ok url token k p =
      answer-ok (w.signing_key h url token) (fetched_key url token ∷ h) h' k b p.returns

  pub request_bind-ok :
      (q : Request) (k : Response → M B)
      → Returns (request q >>= k) w h b h'
      → (r : Response) × (w.send h q ≡ ok r) × Returns (k r) w (sent q ∷ h) b h'
  unfolding request ◌>>=◌
  request_bind-ok q k p = answer-ok (w.send h q) (sent q ∷ h) h' k b p.returns

  pub jwt_decode_bind-ok :
      (token key : String) (o : DecodeOptions) (k : Fields → M B)
      → Returns (jwt_decode token key o >>= k) w h b h'
      → (claims : Fields) × (w.jwt_decode h token key o ≡ ok claims) × Returns (k claims) w h b h'
  unfolding jwt_decode ◌>>=◌
  jwt_decode_bind-ok token key o k p = answer-ok (w.jwt_decode h token key o) h h' k b p.returns

module _ {ℓ} {A : Type ℓ} {w : World} {h' : History} {a : A} where
  rescued :
      (x : Result A × History) (k : Exn → M A)
      → rescue x k w ≡ (ok a, h')
      → (x ≡ (ok a, h')) ⊎ ((e : Exn) × (h1 : History) × (k e w h1 ≡ (ok a, h')))
  rescued (ok c, h1) k p = inl p
  rescued (err e, h1) k p = inr (e, h1, p)

  -- What was tried returned, or the handler did.
  pub catch-ok :
      (h : History) (m : M A) (k : Exn → M A)
      → Returns (catch m k) w h a h'
      → Returns m w h a h' ⊎ ((e : Exn) × (h1 : History) × Returns (k e) w h1 a h')
  unfolding catch
  catch-ok h m k p = elim (rescued (m w h) k p.returns) [
    | inl q ↦ inl (record { returns = q })
    | inr (e, h1, q) ↦ inr (e, h1, record { returns = q })
  ]

pub asks-ok {ℓ} :
    {A : Type ℓ} (f : World → A) (a : A) (w : World) (h h' : History)
    → Returns (asks f) w h a h'
    → a ≡ f w
unfolding asks
asks-ok f a w h h' p = ground (arith, p.returns)

read_json : (r : Option Value) (v : Value) → json_result r ≡ ok v → r ≡ some v
read_json none v p = absurd (ground (arith, p))
read_json (some u) v p = ground (arith, p)

module _ {κ} {B : Type κ} {w : World} {h h' : History} {b : B} where
  pub json_bind-ok :
      (r : Response) (k : Value → M B)
      → Returns (json r >>= k) w h b h'
      → (v : Value) × (r.json ≡ some v) × Returns (k v) w h b h'
  unfolding json
  json_bind-ok r k p =
      let (v, is_json, q) = lift_bind-ok _ _ p in (v, read_json r.json v is_json, q)

-- The branch that a test chose.
pub if-ok {ℓ} :
    {A : Type ℓ} (t : Bool) (m n : M A) (w : World) (h h' : History) (a : A)
    → Returns (if t then m else n) w h a h'
    → ((t ≡ true) × Returns m w h a h') ⊎ ((t ≡ false) × Returns n w h a h')
if-ok true m n w h h' a p = inl (refl, p)
if-ok false m n w h h' a p = inr (refl, p)
