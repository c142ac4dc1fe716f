-- ===== src/Register.antt =====
-- What the agents of cross-domain-id-jag-vc do alike at the Identity Node: register an id
-- (`_cimd_register` of triage-agent/app.py and of sub-agent/app.py, which differ in the texts of
-- their steps), publish the badge of the agent, and push a record of its turn to the Directory.
-- `Contained` is about where the requests go.
pub mod Contained
use agent_identity_demos.Prelude.{ℕ, String, ◌<>◌, List, [], ◌∷◌, ◌&&◌, if◌then◌else◌, string_eq}
use agent_identity_demos.Prelude.Text.{is_empty}
use agent_identity_demos.Value.{
  Value, Fields, null, str, bool, arr, obj, nil, cons, end, field, get, get_default, or_value,
  truthy, eq_str, set_item,
}
use agent_identity_demos.Effects.{
  Result, ok, err, key_error, type_error, M, pure, lift, catch, ◌>>=◌, as_dict, time,
}
use agent_identity_demos.Effects.Values.{text_at, text_of}
use agent_identity_demos.Client.Vault.{VaultConfig}
use agent_identity_demos.Client.Cimd.{Generated, generate_id, resolve_id, well_known_id}
use agent_identity_demos.Client.Directory.{push_record}
use agent_identity_demos.Client.Vc.{Grant, Issued, issue_badge}
use agent_identity_demos.Step.{Step, reported, has_status, fails_with, Outcome, stopped, passed}
use agent_identity_demos.Phase.{any_failed, go_on, or_fail}

abbrev pub generated_result : Generated → Value
generated_result res = obj (
    field "id" res.id (
      if res.already_registered
      then field "note" (str "already registered") end
      else field "controller" res.controller end))

-- `(v or [{}])[0]`
abbrev pub first_of : Value → Result Value
first_of (arr (cons v vs)) = ok v
first_of (arr nil) = ok (obj end)
first_of (obj end) = ok (obj end)
first_of (str s) = if is_empty s then ok (obj end) else ok (str s)
first_of (obj (field k v fs)) = err (key_error "0")
first_of v = if truthy v then err (type_error "not subscriptable") else ok (obj end)

abbrev pub resolved_result : Value → M Value
resolved_result metadata = do
  rm ← as_dict metadata
  method ← lift (first_of (get "verificationMethod" rm))
  vm ← as_dict method
  jwk ← as_dict (or_value (get "publicKeyJwk" vm) (obj end))
  pure (
      obj (
        field "id" (get_default "id" (str "") rm) (
          field "controller" (get_default "controller" (str "") rm) (
            field "verification_method_id" (get_default "id" (str "") vm)
              (field "public_key_kid" (get_default "kid" (str "") jwk) end)))))

unfoldable pub resolve : String → Value → Step → M Step
resolve node_url cimd_id s = or_fail "" s (do
  rm ← resolve_id node_url cimd_id
  result ← resolved_result rm
  pure (reported "ok" result s))

-- The steps of the registration, the second, whose texts name the id, only if the first went well.
unfoldable pub registration : String → VaultConfig → String → Step → (String → Step) → M (List Step)
unfolding fails_with
registration node_url vault_cfg client_id s resolve_step = do
  generated ←
      catch
        (do
          res ← generate_id node_url vault_cfg client_id
          pure (
            reported "ok" (generated_result res) s,
            or_value res.id (str (well_known_id client_id)),
          ))
        (λ e. do failure ← fails_with "" s e; pure (failure, null))
  let (first, cimd_id) = generated
  if has_status "ok" first
      then (do
        text ← text_at cimd_id
        second ← resolve node_url cimd_id (resolve_step text)
        pure (first ∷ second ∷ []))
      else pure (first ∷ [])

-- `step.get("result") or {}`, for the steps of the registration, whose results are dicts.
abbrev pub result_fields : Value → Fields
result_fields (obj fs) = fs
result_fields v = end

-- The id that the first step reports, if it does.
abbrev registered_id : String → List Step → Value
registered_id client_id [] = str (well_known_id client_id)
registered_id client_id (s ∷ steps) =
    if eq_str (get "id" s) "cimd-generate-id" && truthy (get "id" (result_fields (get "result" s)))
    then get "id" (result_fields (get "result" s))
    else registered_id client_id steps

-- The Identity Node's ids are texts.
unfoldable pub registered : String → List Step → M String
registered client_id steps w h = (ok (text_of w (registered_id client_id steps)), h)

-- The registration, which ends the handler if a step of it failed.
unfoldable pub register_phase : String → M (List Step) → M (Outcome String)
unfolding registered
register_phase client_id register = do
  steps ← register
  id ← registered client_id steps
  if any_failed steps then pure (stopped steps) else pure (passed steps id)

abbrev issued_result : String → String → Issued → Value
issued_result node_url id issued = obj (
    field "credential_id" issued.credential_id (
      field "issuer" issued.issuer (
        field "reused_existing_credential" (bool issued.reused) (
          field "verified_by" (str "identity-node /v1alpha1/vc/verify") (
            field "well_known"
              (str (node_url <> ("/v1alpha1/vc/" <> (id <> "/.well-known/vcs.json"))))
              (field "claims" issued.document end))))))

abbrev issued_step : String → String → Issued → Step → Step
issued_step node_url id issued s =
    if issued.verified
    then reported "ok" (issued_result node_url id issued) s
    else set_item "error" (str "identity-node reported the published badge as invalid")
        (reported "error" (issued_result node_url id issued) s)

-- The badge that `grant` builds is issued for an hour, and a badge that the Identity Node does not
-- verify ends the handler.
unfoldable pub badge_phase :
    String → VaultConfig → Step → M Grant → List String → M (Outcome (Unit {0}))
badge_phase node_url vault_cfg s grant act_chain = do
  s' ← or_fail "" s (do
    g ← grant
    issued ← issue_badge node_url vault_cfg g act_chain 3600
    pure (issued_step node_url g.subject_id issued s))
  pure (go_on tt s')

-- `_dir_push_turn`: the record of an agent's turn, which holds the moment of the push.
unfoldable pub push_turn : String → String → (ℕ → Value) → Step → M Step
push_turn dir_url agent turn_record s =
    if is_empty dir_url
    then pure (
        reported "ok"
          (obj (field "cid" (str "") (field "note" (str "directory not configured") end))) s)
    else or_fail "" s (do
      now ← time
      cid ← push_record dir_url (turn_record now)
      pure (reported "ok" (obj (field "cid" (str cid) (field "agent" (str agent) end))) s))
