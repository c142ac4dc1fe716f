-- ===== src/Webapp/Agents.antt =====
-- `registered_agents` of cross-domain-id-jag-vc/webapp/app.py: what the Identity Node tells of the
-- agents of the demo.
use agent_identity_demos.Prelude.{
  true, ◌==◌, nat_eq, false, String, ◌<>◌, Option, none, some, List, [], ◌∷◌, if◌then◌else◌,
}
use agent_identity_demos.Value.{
  Value, Items, Fields, null, bool, str, arr, obj, nil, cons, end, field, get, get_default,
  or_value, truthy, set_item,
}
use agent_identity_demos.Effects.{
  type_error, key_error, Result, ok, err, M, asks, pure, lift, catch, ◌>>=◌, Request, http_get,
  http_post, no_body, json_body, request, json, as_dict,
}
use agent_identity_demos.Step.{decode_unverified}
use agent_identity_demos.Register.{first_of}
use agent_identity_demos.Webapp.Config.{Config}

-- An agent of the demo: its name, its client id, and its organisation.
abbrev pub Agent : Type 0
Agent = String × String × String

abbrev pub known_agents : Config → List Agent
known_agents cfg =
    ("OpenCode Agent", cfg.opencode_client_id, "org-a")
    ∷ ("Triage Agent", cfg.triage_client_id, "org-b")
    ∷ ("Sub-Agent", cfg.sub_agent_client_id, "org-b")
    ∷ []

abbrev pub cimd_id_of : String → String
cimd_id_of client_id = "AGNTCY-" <> client_id

abbrev pub vcs_url : Config → String → String
vcs_url cfg client_id =
    cfg.identity_node_url <> ("/v1alpha1/vc/" <> (cimd_id_of client_id <> "/.well-known/vcs.json"))

abbrev pub unresolved : Config → Agent → Fields
unresolved cfg (name, client_id, org) = field "name" (str name) (
    field "client_id" (str client_id) (
      field "org" (str org) (
        field "holder_id" (str (cimd_id_of client_id)) (
          field "resolved" (bool false)
            (field "credential" null (field "vcs_url" (str (vcs_url cfg client_id)) end))))))

abbrev resolve_request : Config → String → Request
resolve_request cfg client_id = record {
  method = http_post;
  url = cfg.identity_node_url <> "/v1alpha1/id/resolve";
  headers = [];
  auth = none;
  body = json_body (obj (field "id" (str (cimd_id_of client_id)) end));
}

-- The verification method in an answer that says 200.
ask_method : Config → String → M (Option Value)
ask_method cfg client_id = do
  r ← request (resolve_request cfg client_id)
  if r.status_code == 200
      then (do
        reply ← json r
        fields ← as_dict reply
        rm ← as_dict (get_default "resolverMetadata" (obj end) fields)
        vm ← lift (first_of (get "verificationMethod" rm))
        pure (some vm))
      else pure none

abbrev pub with_kid : Value → Fields → Fields
with_kid (obj jwk) entry = set_item "issuer_kid" (get_default "kid" (str "") jwk) entry
with_kid v entry = entry

-- What was set before an exception stays set.
unfoldable pub with_method : Option Value → Fields → Fields
with_method none entry = entry
with_method (some (obj vm)) entry = with_kid (or_value (get "publicKeyJwk" vm) (obj end)) (
    set_item "verification_method_id" (get_default "id" (str "") vm)
      (set_item "resolved" (bool true) entry))
with_method (some v) entry = set_item "resolved" (bool true) entry

-- `vcs[-1]`, for what is truthy.
abbrev last_item : Value → Items → Value
last_item v nil = v
last_item v (cons u vs) = last_item u vs

abbrev last_of : Value → Result Value
last_of (arr (cons v vs)) = ok (last_item v vs)
last_of (str s) = ok (str s)
last_of (obj fs) = err (key_error "-1")
last_of v = err (type_error "not subscriptable")

abbrev credential_view : Fields → Fields → Value
credential_view payload subject = obj (
    field "issuer" (get "issuer" payload) (
      field "issuanceDate" (get "issuanceDate" payload) (
        field "expirationDate" (get "expirationDate" payload) (
          field "caps" (get_default "caps" (arr nil) subject) (
            field "delegatable" (get_default "delegatable" (arr nil) subject)
              (field "act_chain" (get_default "act_chain" (arr nil) subject) end))))))

abbrev last_credential : Value → M Value
last_credential vcs = do
  last ← lift (last_of vcs)
  enveloped ← as_dict last
  decoded ← asks (λ w. decode_unverified w (get_default "value" (str "") enveloped))
  payload ← as_dict decoded
  subject ← as_dict (get_default "credentialSubject" (obj end) payload)
  pure (credential_view payload subject)

-- The credential that was published last, none where there is none.
ask_credential : Config → String → M (Option Value)
ask_credential cfg client_id = do
  r ← request (record (resolve_request cfg client_id) {
    method = http_get;
    url = vcs_url cfg client_id;
    body = no_body;
  })
  if r.status_code == 200
      then (do
        reply ← json r
        fields ← as_dict reply
        let vcs = get_default "vcs" (arr nil) fields
        if truthy vcs then (do view ← last_credential vcs; pure (some view)) else pure none)
      else pure none

abbrev pub with_credential : Option Value → Fields → Fields
with_credential none entry = entry
with_credential (some v) entry = set_item "credential" v entry

unfoldable pub agent_entry : Config → Agent → M Fields
unfolding ask_method ask_credential with_method
agent_entry cfg (name, client_id, org) = do
  vm ← catch (ask_method cfg client_id) (λ e. pure none)
  credential ← catch (ask_credential cfg client_id) (λ e. pure none)
  pure (with_credential credential (with_method vm (unresolved cfg (name, client_id, org))))

unfoldable pub entries_of : Config → List Agent → M Items
unfolding agent_entry
entries_of cfg [] = pure nil
entries_of cfg (a ∷ agents) = do
  entry ← agent_entry cfg a
  rest ← entries_of cfg agents
  pure (cons (obj entry) rest)

unfoldable pub registered_agents : Config → M Value
unfolding entries_of
registered_agents cfg = do
  agents ← entries_of cfg (known_agents cfg)
  pure (
      obj (field "identity_node_url" (str cfg.identity_node_url) (field "agents" (arr agents) end)))
