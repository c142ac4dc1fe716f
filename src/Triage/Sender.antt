-- ===== src/Triage/Sender.antt =====
-- The step of `receive_ticket` in cross-domain-id-jag-vc/triage-agent/app.py that resolves the
-- credential of the delegating agent and checks that it agrees with the assertion.
use agent_identity_demos.Prelude.{
  String, Bool, ◌<>◌, ◌&&◌, Option, List, [], ◌∷◌, subset, string_eq,
}
use agent_identity_demos.Prelude.Text.{sorted_set}
use agent_identity_demos.Value.{
  Value, Items, Fields, str, obj, arr, nil, end, field, get, or_value, eq_str, strs, truthy,
  items_eq_strs,
}
use agent_identity_demos.Effects.{
  value_error, Result, World, M, asks, pure, lift, require, ◌>>=◌, ◌>>◌, as_dict,
}
use agent_identity_demos.Effects.Values.{text_at, items_of, list_of, subscript}
use agent_identity_demos.Client.Vc.{well_known_badges}
use agent_identity_demos.Step.{step, reported, Outcome}
use agent_identity_demos.Phase.{go_on, or_fail}
use agent_identity_demos.Credential.{
  find_document, found_document, texts, sorted, scope_words, difference,
}
use agent_identity_demos.Triage.Ticket.{Config, TicketRequest}

-- `f"AGNTCY-{body.act_chain[0]}" if body.act_chain else ""`
unfoldable pub sender_id : List String → String
sender_id [] = ""
sender_id (a ∷ chain) = "AGNTCY-" <> a

abbrev pub subject_value : Fields → Value
subject_value document = or_value (get "credentialSubject" document) (obj end)

abbrev pub may_delegate : String → Fields → Bool
may_delegate sender subject = eq_str (get "id" subject) sender && truthy (get "delegatable" subject)

-- The first credential about the sender that declares an authority to delegate.
unfoldable pub find_sender : World → String → Items → Result (Option Fields)
unfolding find_document
find_sender w sender entries = find_document w subject_value (may_delegate sender) entries

abbrev pub sender_of : String → Result (Option Fields) → Result Fields
sender_of sender r =
    found_document (sender <> " has no resolvable credential declaring delegatable authority") r

-- What the credential says must agree with the assertion: the chain is the ticket's, and every scope
-- of the assertion is one that the sender may delegate.
unfoldable pub check_sender : TicketRequest → Fields → Fields → M Value
unfolding list_of texts sorted sorted_set
check_sender body claims sender = do
  found ← lift (subscript "credentialSubject" (obj sender))
  subject ← as_dict found
  chain ← lift (list_of (or_value (get "act_chain" subject) (arr nil)))
  said ← text_at (get "act_chain" subject)
  expected ← text_at (arr (strs body.act_chain))
  require (items_eq_strs chain body.act_chain) (
      value_error
        ("sender credential act_chain=" <> (said <> (" disagrees with the ticket's " <> expected))))
  delegatable ← lift (list_of (or_value (get "delegatable" subject) (arr nil)))
  permitted ← lift (texts delegatable)
  scope ← text_at (or_value (get "scope" claims) (str ""))
  let granted = scope_words scope
  beyond ← text_at (arr (strs (sorted_set (difference granted permitted))))
  require (subset granted permitted) (
      value_error (
        "ID-JAG grants "
        <> (beyond <> " which the sender's credential does not permit it to delegate")))
  caps_list ← lift (list_of (or_value (get "caps" subject) (arr nil)))
  caps ← lift (texts caps_list)
  pure (
      obj (
        field "delegating_agent" (str (sender_id body.act_chain)) (
          field "credential_issuer" (get "issuer" sender) (
            field "credential_caps" (arr (strs (sorted caps))) (
              field "credential_delegatable" (arr (strs (sorted_set permitted))) (
                field "note" (str "credential agrees with the assertion; not proof of possession")
                  end))))))

unfoldable pub resolve_sender : Config → TicketRequest → Fields → M Value
unfolding find_sender
resolve_sender cfg body claims = do
  let sender_name = sender_id body.act_chain
  vcs ← well_known_badges cfg.identity_node_url sender_name
  entries ← lift (items_of vcs)
  found ← asks (λ w. sender_of sender_name (find_sender w sender_name entries))
  sender ← lift found
  check_sender body claims sender

unfoldable pub sender_phase : Config → TicketRequest → Fields → M (Outcome (Unit {0}))
sender_phase cfg body claims = do
  let sender_name = sender_id body.act_chain
  let s =
      step "verify-sender-badge"
        ("t1c. Resolve the delegating agent's credential ("
          <> (sender_name <> ") and check it agrees with the ID-JAG"))
        ("GET "
          <> (cfg.identity_node_url
              <> ("/v1alpha1/vc/" <> (sender_name <> "/.well-known/vcs.json"))))
  s' ← or_fail "" s (do result ← resolve_sender cfg body claims; pure (reported "ok" result s))
  pure (go_on tt s')
