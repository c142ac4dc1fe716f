-- ===== src/Effects.antt =====
-- What the services do to the world outside them, and the exceptions they raise. A service is a
-- function of a world and of the events so far. The world answers each call by any function of
-- those events, so a theorem over all worlds covers every behaviour of the network, of the clock,
-- of PyJWT, of the Directory and of the JSON reader.
pub mod Values
pub mod Guards
pub mod Invert
pub mod Total
pub mod Quiet
pub mod Once
pub mod Sends
use agent_identity_demos.Prelude.{
  ℕ, String, ◌<>◌, ◌≡◌, refl, ap, ◌⊎◌, inl, inr, Bool, true, false, Option, none, some, List, [],
  ◌∷◌,
}
use agent_identity_demos.Prelude.Text
use agent_identity_demos.Value.{Value, Fields, obj}

-- Python's exceptions; `foreign` is one that code outside the repository raises.
pub data Exn : Type 0 where
  http_exception : ℕ → Value → Exn
  value_error : String → Exn
  attribute_error : String → Exn
  type_error : String → Exn
  key_error : String → Exn
  index_error : Exn
  json_error : Exn
  cimd_error : ℕ → String → Exn
  vc_error : String → ℕ → String → Exn
  foreign : String → Exn

pub data Result {ℓ} (A : Type ℓ) : Type ℓ where
  ok : A → Result A
  err : Exn → Result A

pub data Method : Type 0 where
  http_get http_post : Method

pub Result-cases {ℓ} :
    {A : Type ℓ} (r : Result A) → ((a : A) × (r ≡ ok a)) ⊎ ((e : Exn) × (r ≡ err e))
Result-cases (ok a) = inl (a, refl)
Result-cases (err e) = inr (e, refl)

-- The body of a request: none, `json=`, or the form fields of `data=`.
pub data Body : Type 0 where
  no_body : Body
  json_body : Value → Body
  form_body : List (String × String) → Body

pub record Request : Type 0 where
  pub method : Method
  pub url : String
  pub headers : List (String × String)
  pub auth : Option (String × String)
  pub body : Body

-- `json` is none where `r.json()` raises.
pub record Response : Type 0 where
  pub status_code : ℕ
  pub text : String
  pub headers : List (String × String)
  pub json : Option Value

-- The arguments of `jwt.decode` beside the token and the key.
pub record DecodeOptions : Type 0 where
  pub algorithms : List String
  pub audience : Option String
  pub issuer : String
  pub required : List String
  pub verify_aud : Bool

pub data Event : Type 0 where
  sent : Request → Event
  read_clock : Event
  drew_uuid : Event
  drew_token : Event
  fetched_key : String → String → Event
  pushed : String → Value → Event
  searched : String → String → Event
  pinged : String → Event
  pushed_all : String → List Value → Event
  slept : ℕ → Event
  -- `_jwk_cache[(vault_addr, key_name)] = jwk`
  cached : String → String → Fields → Event

-- The events so far, the newest first.
abbrev pub History : Type 0
History = List Event

-- What an empty push to the Directory comes to: an answer, an `RpcError` with the code UNAVAILABLE or
-- another one, or an exception of another kind.
pub data Ping : Type 0 where
  served unavailable refused broken : Ping

pub record World : Type 0 where
  pub send : History → Request → Result Response
  pub time : History → ℕ
  pub uuid4 : History → String
  pub token_hex : History → ℕ → String
  pub signing_key : History → String → String → Result String
  pub jwt_header : String → Result Fields
  pub jwt_decode : History → String → String → DecodeOptions → Result Fields
  -- The identifiers that the Directory answers a push of one record or of several with, what it
  -- makes of an empty push, and the records that it finds.
  pub dir_push : History → String → Value → Result (List String)
  pub dir_push_all : History → String → List Value → Result (List String)
  pub dir_ping : History → String → Ping
  pub dir_search : History → String → String → ℕ → Result (List Fields)
  pub loads : List ℕ → Option Value
  -- Whether the bytes of an answer are no text in an encoding that `json.loads` reads.
  pub undecodable : Response → Bool
  -- `time.mktime(time.strptime(s, "%Y-%m-%dT%H:%M:%SZ"))`, which reads the time zone of the host.
  -- Zero stands for every moment before 1970.
  pub mktime : String → Result ℕ
  -- `str(v)` where `v` is no text.
  pub repr : Value → String
  pub exn_text : Exn → String
  -- `bytes.decode("utf-8", "replace")`
  pub utf8_replace : List ℕ → String

abbrev pub M {ℓ} : Type ℓ → Type ℓ
M A = World → History → Result A × History

module _ {ℓ} {A : Type ℓ} where
  unfoldable pub pure : A → M A
  pure a w h = (ok a, h)

  unfoldable pub raise : Exn → M A
  raise e w h = (err e, h)

  unfoldable pub lift : Result A → M A
  lift r w h = (r, h)

  -- A value that the world alone decides.
  unfoldable pub asks : (World → A) → M A
  asks f w h = (ok (f w), h)

  -- `try: m` with a handler for every exception.
  abbrev pub rescue : Result A × History → (Exn → M A) → World → Result A × History
  rescue (ok a, h) k w = (ok a, h)
  rescue (err e, h) k w = k e w h

  unfoldable pub catch : M A → (Exn → M A) → M A
  catch m k w h = rescue (m w h) k w

  -- `try: m`, with the exception as a value.
  abbrev pub outcome : Result A × History → Result (Result A) × History
  outcome (r, h) = (ok r, h)

  unfoldable pub attempt : M A → M (Result A)
  attempt m w h = outcome (m w h)

module _ {ℓ κ} {A : Type ℓ} {B : Type κ} where
  abbrev pub continue : Result A × History → (A → M B) → World → Result B × History
  continue (ok a, h) f w = f a w h
  continue (err e, h) f w = (err e, h)

  infixl 5 ◌>>=◌
  -- Opening this opens the other ways to build an action.
  unfoldable pub ◌>>=◌ : M A → (A → M B) → M B
  unfolding pure raise lift asks catch attempt
  ◌>>=◌ m f w h = continue (m w h) f w

infixl 5 ◌>>◌
abbrev pub ◌>>◌ {ℓ} : {B : Type ℓ} → M (Unit {0}) → M B → M B
m >> k = m >>= λ _. k

-- `if not b: raise e`
unfoldable pub require : Bool → Exn → M (Unit {0})
unfolding ◌>>=◌
require true e = pure tt
require false e = raise e

unfoldable pub request : Request → M Response
request r w h = (w.send h r, sent r ∷ h)

unfoldable pub time : M ℕ
time w h = (ok (w.time h), read_clock ∷ h)

-- `time.sleep(n)`
unfoldable pub sleep : ℕ → M (Unit {0})
sleep n w h = (ok tt, slept n ∷ h)

unfoldable pub uuid4 : M String
uuid4 w h = (ok (w.uuid4 h), drew_uuid ∷ h)

unfoldable pub token_hex : ℕ → M String
token_hex n w h = (ok (w.token_hex h n), drew_token ∷ h)

-- `client.get_signing_key_from_jwt(token)`, for the client of one JWKS URL.
unfoldable pub signing_key : String → String → M String
signing_key url token w h = (w.signing_key h url token, fetched_key url token ∷ h)

unfoldable pub jwt_decode : String → String → DecodeOptions → M Fields
jwt_decode token key o w h = (w.jwt_decode h token key o, h)

unfoldable pub jwt_header : String → M Fields
jwt_header token w h = (w.jwt_header token, h)

-- `r.json()`
abbrev pub json_result : Option Value → Result Value
json_result none = err json_error
json_result (some v) = ok v

unfoldable pub json : Response → M Value
unfolding ◌>>=◌
json r = lift (json_result r.json)

-- `v.get(…)` and `v[…]` want a dict.
abbrev pub dict_result : Value → Result Fields
dict_result (obj fs) = ok fs
dict_result _ = err (attribute_error "get")

unfoldable pub as_dict : Value → M Fields
unfolding ◌>>=◌
as_dict v = lift (dict_result v)

-- The `sent` events, the newest first: the requests that the services make with their own clients.
-- PyJWT's fetches of keys and the gRPC calls of the Directory are events of their own, and no
-- requests.
unfoldable pub requests : History → List Request
requests [] = []
requests (sent r ∷ h) = r ∷ requests h
requests (read_clock ∷ h) = requests h
requests (drew_uuid ∷ h) = requests h
requests (drew_token ∷ h) = requests h
requests (fetched_key u t ∷ h) = requests h
requests (pushed u v ∷ h) = requests h
requests (searched u n ∷ h) = requests h
requests (pinged u ∷ h) = requests h
requests (pushed_all u vs ∷ h) = requests h
requests (slept n ∷ h) = requests h
requests (cached a k v ∷ h) = requests h

-- `str(e)`. The texts of the exceptions that the repository does not declare are the world's.
unfoldable pub exn_text : World → Exn → String
exn_text w (value_error s) = s
exn_text w (cimd_error status body) =
    "HTTP " <> (Text.decimal status <> (": " <> Text.take_text 300 body))
exn_text w (vc_error op status body) =
    op <> (" failed — HTTP " <> (Text.decimal status <> (": " <> Text.take_text 300 body)))
exn_text w e = w.exn_text e
