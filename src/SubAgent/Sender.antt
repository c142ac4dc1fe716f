-- ===== src/SubAgent/Sender.antt =====
-- The step of `run` in cross-domain-id-jag-vc/sub-agent/app.py that resolves the credential of the
-- delegating agent and checks that it agrees with the sub-badge.
use agent_identity_demos.Prelude.{
  String, Bool, ◌<>◌, Option, List, [], ◌∷◌, subset, filter, string_eq,
}
use agent_identity_demos.Prelude.Text.{sorted_set}
use agent_identity_demos.Value.{
  Value, Items, Fields, str, obj, arr, nil, end, field, get, get_default, or_value, eq_str, strs,
  items_eq_strs,
}
use agent_identity_demos.Effects.{
  value_error, Result, World, M, asks, pure, lift, require, ◌>>=◌, ◌>>◌, as_dict,
}
use agent_identity_demos.Effects.Values.{text_at, items_of, list_of}
use agent_identity_demos.Client.Vc.{well_known_badges}
use agent_identity_demos.Step.{step, reported, Outcome}
use agent_identity_demos.Phase.{go_on, or_fail}
use agent_identity_demos.SubAgent.Badge.{Config, RunRequest, init}
use agent_identity_demos.Credential.{
  find_document, found_document, texts, sorted, scope_words, difference,
}

-- `f"AGNTCY-{act_chain[-2]}" if len(act_chain) >= 2 else ""`
unfoldable pub parent_id : List String → String
parent_id [] = ""
parent_id (a ∷ []) = ""
parent_id (a ∷ b ∷ []) = "AGNTCY-" <> a
parent_id (a ∷ b ∷ c ∷ chain) = parent_id (b ∷ c ∷ chain)

abbrev pub subject_value : Fields → Value
subject_value document = get_default "credentialSubject" (obj end) document

abbrev pub is_about : String → Fields → Bool
is_about parent subject = eq_str (get "id" subject) parent

-- The first served credential about this subject, decoded without a check of its signature.
unfoldable pub find_sender : World → String → Items → Result (Option Fields)
unfolding find_document
find_sender w parent entries = find_document w subject_value (is_about parent) entries

abbrev pub sender_of : String → Result (Option Fields) → Result Fields
sender_of parent r = found_document (parent <> " has no resolvable credential") r

abbrev pub parent_chain : RunRequest → List String
parent_chain body = init body.act_chain

-- What the credential says must agree with the sub-badge: the chain is ours without this hop, and
-- every scope of the sub-badge is one that the sender may delegate.
unfoldable pub check_sender : RunRequest → Fields → Fields → M Value
unfolding list_of texts sorted sorted_set filter
check_sender body claims sender = do
  subject ← as_dict (get_default "credentialSubject" (obj end) sender)
  chain ← lift (list_of (or_value (get "act_chain" subject) (arr nil)))
  signed ← text_at (arr chain)
  expected ← text_at (arr (strs (parent_chain body)))
  require (items_eq_strs chain (parent_chain body)) (
      value_error (
        "delegating agent's credential says act_chain="
        <> (signed <> (", but the sub-badge we hold says " <> expected))))
  delegatable ← lift (list_of (or_value (get "delegatable" subject) (arr nil)))
  may_delegate ← lift (texts delegatable)
  scope ← text_at (or_value (get "scope" claims) (str ""))
  let ours = scope_words scope
  beyond ← text_at (arr (strs (sorted_set (difference ours may_delegate))))
  require (subset ours may_delegate) (
      value_error (
        "sub-badge grants "
        <> (beyond <> " which the delegating agent's credential does not permit it to delegate")))
  caps_list ← lift (list_of (or_value (get "caps" subject) (arr nil)))
  caps ← lift (texts caps_list)
  pure (
      obj (
        field "credential_issuer" (get "issuer" sender) (
          field "credential_caps" (arr (strs (sorted caps))) (
            field "credential_delegatable" (arr (strs (sorted_set may_delegate))) (
              field "credential_act_chain" (arr chain) (
                field "note"
                  (str
                    "the credential agrees with the assertion; this is not proof of possession — CIMD registers no per-agent key")
                  end))))))

unfoldable pub resolve_sender : Config → RunRequest → Fields → M Value
unfolding find_sender
resolve_sender cfg body claims = do
  let parent = parent_id body.act_chain
  vcs ← well_known_badges cfg.identity_node_url parent
  entries ← lift (items_of vcs)
  found ← asks (λ w. sender_of parent (find_sender w parent entries))
  sender ← lift found
  check_sender body claims sender

abbrev with_agent : String → Value → Value
with_agent parent (obj fs) = obj (field "delegating_agent" (str parent) fs)
with_agent parent v = v

unfoldable pub sender_phase : Config → RunRequest → Fields → M (Outcome (Unit {0}))
sender_phase cfg body claims = do
  let parent = parent_id body.act_chain
  let s =
      step "verify-sender-badge"
        ("s2d. Resolve the delegating agent's credential ("
          <> (parent <> ") and check it agrees with the sub-badge"))
        ("GET "
          <> (cfg.identity_node_url <> ("/v1alpha1/vc/" <> (parent <> "/.well-known/vcs.json"))))
  s' ← or_fail "" s (do
    result ← resolve_sender cfg body claims
    pure (reported "ok" (with_agent parent result) s))
  pure (go_on tt s')
