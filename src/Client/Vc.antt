-- ===== src/Client/Vc.antt =====
-- cross-domain-id-jag-vc/agntcy_identity_client/vc.py: credentials at the Identity Node.
pub mod Live
mod Supersede
mod Expiry
use agent_identity_demos.Prelude.{
  ℕ, ◌+◌, String, ◌<>◌, Bool, true, false, ◌&&◌, ◌||◌, not, Option, none, some, List, [], ◌∷◌, ltb,
  ◌==◌, nat_eq, string_eq, if◌then◌else◌, length,
}
use agent_identity_demos.Prelude.Text.{rstrip_slash, split}
use agent_identity_demos.Value.{
  Value, Items, Fields, null, bool, str, arr, obj, nil, cons, end, field, get, get_default, truthy,
  or_value, eq_str, strs, items_eq_strs,
}
use agent_identity_demos.Effects.{
  Exn, vc_error, foreign, value_error, Result, ok, err, World, M, pure, raise, asks, lift, catch,
  require, ◌>>=◌, ◌>>◌, Request, http_get, http_post, no_body, json_body, request, json, as_dict,
  dict_result, time, uuid4,
}
use agent_identity_demos.Effects.Values.{items_of, subscript, as_text, list_of, and_then}
use agent_identity_demos.Base64.{b64decode, pad_segment}
use agent_identity_demos.Clock.{iso}
use agent_identity_demos.Client.Vault.{
  VaultConfig, issuer, get_issuer_jwk, sign_segments, jws_header, build_proof_jwt,
}
use agent_identity_demos.Client.Cimd.{post_node, jwt_proof}

abbrev envelope_jose : String
envelope_jose = "CREDENTIAL_ENVELOPE_TYPE_JOSE"

-- What a credential is asked for: the keyword arguments that `issue_badge` shares with the rest.
pub record Grant : Type 0 where
  pub subject_id : String
  pub caps : List String
  pub delegating_user : String
  pub intent : String
  pub delegatable : List String

abbrev context : Value
context = arr (cons (str "https://www.w3.org/2018/credentials/v1") nil)

abbrev pub subject_of : Grant → List String → Value
subject_of g act_chain = obj (
    field "id" (str g.subject_id) (
      field "caps" (arr (strs g.caps)) (
        field "delegating_user" (str g.delegating_user) (
          field "intent" (str g.intent) (
            field "act_chain" (arr (strs act_chain))
              (field "delegatable" (arr (strs g.delegatable)) end))))))

abbrev pub badge_credential : VaultConfig → Grant → List String → ℕ → ℕ → String → Fields
badge_credential cfg g act_chain ttl_seconds now id = field "@context" context (
    field "context" context (
      field "type" (arr (strs ("VerifiableCredential" ∷ "AgentBadge" ∷ []))) (
        field "issuer" (str (issuer cfg)) (
          field "id" (str ("urn:uuid:" <> id)) (
            field "issuanceDate" (str (iso now)) (
              field "expirationDate" (str (iso (now + ttl_seconds)))
                (field "credentialSubject" (subject_of g act_chain) end)))))))

unfoldable pub build_badge_credential : VaultConfig → Grant → List String → ℕ → M Fields
build_badge_credential cfg g act_chain ttl_seconds = do
  now ← time
  id ← uuid4
  pure (badge_credential cfg g act_chain ttl_seconds now id)

unfoldable pub sign_credential : VaultConfig → Fields → M String
sign_credential cfg credential = do
  jwk ← get_issuer_jwk cfg
  key_id ← lift (subscript "kid" (obj jwk))
  sign_segments cfg (jws_header "JOSE" key_id) credential

abbrev enveloped : Value → Value
enveloped jws = obj (field "envelopeType" (str envelope_jose) (field "value" jws end))

abbrev proven : Value → String → Value
proven jws proof_jwt = obj (field "vc" (enveloped jws) (field "proof" (jwt_proof proof_jwt) end))

abbrev pub publish_request : String → String → String → Request
publish_request url jws proof_jwt =
    post_node url "/v1alpha1/vc/publish" (proven (str jws) proof_jwt)

unfoldable pub publish_badge : String → VaultConfig → String → String → M (Unit {0})
publish_badge url cfg jws subject_id = do
  proof_jwt ← build_proof_jwt cfg subject_id
  r ← request (publish_request url jws proof_jwt)
  require (r.status_code == 200) (vc_error "vc/publish" r.status_code r.text)

abbrev pub revoke_request : String → Value → String → Request
revoke_request url jws proof_jwt = post_node url "/v1alpha1/vc/revoke" (proven jws proof_jwt)

unfoldable pub revoke_badge : String → VaultConfig → Value → String → M (Unit {0})
revoke_badge url cfg jws subject_id = do
  proof_jwt ← build_proof_jwt cfg subject_id
  r ← request (revoke_request url jws proof_jwt)
  require (r.status_code == 200) (vc_error "vc/revoke" r.status_code r.text)

abbrev loaded : World → Option (List ℕ) → Option Value
loaded w none = none
loaded w (some bytes) = w.loads bytes

-- `json.loads(urlsafe_b64decode(segment + "=" * (-len(segment) % 4)))`, none where it raises.
unfoldable pub decode_segment : World → String → Option Value
decode_segment w segment = loaded w (b64decode true (pad_segment segment))

-- The payload of a text of three segments.
abbrev pub payload_of : World → List String → Option Value
payload_of w (header ∷ payload ∷ signature ∷ []) = decode_segment w payload
payload_of w _ = none

abbrev id_of : Option Value → Value
id_of (some (obj credential)) = get_default "id" (str "") credential
id_of _ = str ""

unfoldable pub credential_id : World → String → Value
unfolding split
credential_id w jws = id_of (payload_of w (split b'.' jws))

abbrev pub verify_request : String → String → Request
verify_request url jws =
    post_node url "/v1alpha1/vc/verify" (obj (field "vc" (enveloped (str jws)) end))

unfoldable pub verify_badge : String → String → M Value
verify_badge url jws = do
  r ← request (verify_request url jws)
  require (r.status_code == 200) (vc_error "vc/verify" r.status_code r.text)
  json r

abbrev pub well_known_request : String → String → Request
well_known_request url subject_id = record {
  method = http_get;
  url = rstrip_slash url <> ("/v1alpha1/vc/" <> (subject_id <> "/.well-known/vcs.json"));
  headers = [];
  auth = none;
  body = no_body;
}

unfoldable pub well_known_badges : String → String → M Value
well_known_badges url subject_id = do
  r ← request (well_known_request url subject_id)
  require (r.status_code == 200) (vc_error "vc/.well-known" r.status_code r.text)
  reply ← json r
  fields ← as_dict reply
  pure (or_value (get_default "vcs" (arr nil) fields) (arr nil))

-- `list(subject.get(k) or []) == ss`
abbrev list_is : String → List String → Fields → Result Bool
list_is k ss subject = elim (list_of (or_value (get k subject) (arr nil))) [
  | ok items ↦ ok (items_eq_strs items ss)
  | err e ↦ err e
]

abbrev pub matches_grant : Grant → Result Fields → Result Bool
matches_grant g (err e) = err e
matches_grant g (ok subject) = and_then (ok (eq_str (get "id" subject) g.subject_id)) (
    and_then (list_is "caps" g.caps subject) (
      and_then (list_is "delegatable" g.delegatable subject) (
        ok (
          eq_str (get "delegating_user" subject) g.delegating_user
          && eq_str (get "intent" subject) g.intent))))

unfoldable pub subject_matches : Grant → Fields → Result Bool
unfolding list_of items_eq_strs
subject_matches g credential =
    matches_grant g (dict_result (or_value (get "credentialSubject" credential) (obj end)))

-- `time.time() < …`; a text of another format is a `ValueError`, which counts as expired.
abbrev pub before : ℕ → Result ℕ → Result Bool
before now (ok expiry) = ok (ltb now expiry)
before now (err (value_error s)) = ok false
before now (err e) = err e

unfoldable pub expiry_after : String → ℕ → M Bool
expiry_after expires now w h = (before now (w.mktime expires), h)

unfoldable pub still_valid : Fields → M Bool
unfolding expiry_after
still_valid credential = do
  let expires = get "expirationDate" credential
  if truthy expires
      then (do now ← time; text ← lift (as_text expires); expiry_after text now)
      else pure true

-- Whether the payload of a served credential is a live one for this grant.
unfoldable pub is_live : Grant → Option Value → M Bool
is_live g none = pure false
is_live g (some payload) = do
  credential ← as_dict payload
  valid ← still_valid credential
  if valid then lift (subject_matches g credential) else pure false

abbrev payload_at : String → M (Option Value)
payload_at jws = asks (λ w. payload_of w (split b'.' jws))

-- The text of one entry: `enveloped.get("value") or ""`.
abbrev value_at : Value → M Value
value_at entry = do fields ← as_dict entry; pure (or_value (get "value" fields) (str ""))

unfoldable pub find_in : Grant → Items → M (Option String)
unfolding split
find_in g nil = pure none
find_in g (cons entry entries) =
    let rest = find_in g entries in
    value_at entry >>= λ value. lift (as_text value) >>= λ jws. payload_at jws >>= λ payload.
    is_live g payload >>= λ live. if live then pure (some jws) else rest

unfoldable pub find_live_badge : String → Grant → M (Option String)
find_live_badge url g = do
  vcs ← well_known_badges url g.subject_id
  entries ← lift (items_of vcs)
  find_in g entries

pub record Issued : Type 0 where
  pub badge : String
  pub credential_id : Value
  pub issuer : Value
  pub verified : Bool
  pub document : Value
  pub reused : Bool
  pub superseded : List String

abbrev pub reuse_badge : String → VaultConfig → String → M Issued
reuse_badge url cfg existing = do
  reply ← verify_badge url existing
  result ← as_dict reply
  document ← as_dict (or_value (get "document" result) (obj end))
  pure (record {
    badge = existing;
    credential_id = get_default "id" (str "") document;
    issuer = str (issuer cfg);
    verified = truthy (get "status" result);
    document = get_default "document" (obj end) result;
    reused = true;
    superseded = [];
  })

abbrev pub new_badge : String → VaultConfig → Grant → List String → ℕ → M Issued
new_badge url cfg g act_chain ttl_seconds = do
  credential ← build_badge_credential cfg g act_chain ttl_seconds
  jws ← sign_credential cfg credential
  _ ← publish_badge url cfg jws g.subject_id
  reply ← verify_badge url jws
  result ← as_dict reply
  pure (record {
    badge = jws;
    credential_id = get "id" credential;
    issuer = get "issuer" credential;
    verified = truthy (get "status" result);
    document = get_default "document" (obj end) result;
    reused = false;
    superseded = [];
  })

unfoldable pub issue_badge : String → VaultConfig → Grant → List String → ℕ → M Issued
issue_badge url cfg g act_chain ttl_seconds = do
  existing ← find_live_badge url g
  elim existing [
    | none ↦ new_badge url cfg g act_chain ttl_seconds
    | some jws ↦ reuse_badge url cfg jws
  ]
