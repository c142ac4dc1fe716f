-- ===== src/Triage/Agrees.antt =====
-- What the step of cross-domain-id-jag-vc/triage-agent/app.py that resolves the sender's credential
-- has checked of a credential that it accepts.
use agent_identity_demos.Prelude.{String, ◌≡◌, ◌∙◌, ap, true, some, List, subset, string_eq}
use agent_identity_demos.Value.{
  Value, Fields, Items, str, arr, obj, nil, get, or_value, strs, items_eq_strs→eq,
}
use agent_identity_demos.Effects.{ok, World, History, dict_result}
use agent_identity_demos.Effects.Values.{text_of, list_of, items_of, subscript}
use agent_identity_demos.Effects.Invert.{
  Returns, bind-ok, lift_bind-ok, asks_bind-ok, require_bind-ok, as_dict_bind-ok,
}
use agent_identity_demos.Client.Vc.{well_known_badges}
use agent_identity_demos.Credential.{scope_words, texts}
use agent_identity_demos.Credential.Found.{find_document-ok, found_document-ok}
use agent_identity_demos.Triage.Ticket.{Config, TicketRequest}
use agent_identity_demos.Triage.Sender.{
  sender_id, subject_value, may_delegate, find_sender, check_sender, resolve_sender,
}

-- The credential's chain is the ticket's, and each scope of the assertion is one that its subject
-- may delegate.
abbrev pub Delegates : World → TicketRequest → Fields → Fields → Type 0
Delegates w body claims subject =
    (list_of (or_value (get "act_chain" subject) (arr nil)) ≡ ok (strs body.act_chain))
    × (delegatable : Items) × (permitted : List String) × (list_of
          (or_value (get "delegatable" subject) (arr nil))
        ≡ ok delegatable)
    × (texts delegatable ≡ ok permitted)
    × (subset (scope_words (text_of w (or_value (get "scope" claims) (str "")))) permitted ≡ true)

-- The Identity Node served a credential about the first agent of the chain that declares an
-- authority to delegate.
abbrev pub Served : Config → TicketRequest → World → Fields → Type 0
Served cfg body w sender =
    (h : History) × (h' : History) × (vcs : Value) × (entries : Items) × Returns
      (well_known_badges cfg.identity_node_url (sender_id body.act_chain)) w h vcs h'
    × (items_of vcs ≡ ok entries)
    × (find_sender w (sender_id body.act_chain) entries ≡ ok (some sender))
    × ((subject : Fields) × (dict_result (subject_value sender) ≡ ok subject)
        × (may_delegate (sender_id body.act_chain) subject ≡ true))

module _ (cfg : Config) (body : TicketRequest) (w : World) (claims : Fields) where
  check_sender-Delegates :
      (sender : Fields) (h h' : History) (result : Value)
      → Returns (check_sender body claims sender) w h result h'
      → (subject : Fields) × (subscript "credentialSubject" (obj sender) ≡ ok (obj subject))
        × Delegates w body claims subject
  unfolding check_sender
  check_sender-Delegates sender h h' result p =
      let (found, is_found, p0) = lift_bind-ok _ _ p in
      let (subject, is_subject, p1) = as_dict_bind-ok _ _ p0 in
      let (chain, is_chain, p2) = lift_bind-ok _ _ p1 in
      let p3 = asks_bind-ok _ _ (asks_bind-ok _ _ p2) in
      let (same, p4) = require_bind-ok _ _ _ p3 in
      let (delegatable, is_delegatable, p5) = lift_bind-ok _ _ p4 in
      let (permitted, is_texts, p6) = lift_bind-ok _ _ p5 in
      let p7 = asks_bind-ok _ _ (asks_bind-ok _ _ p6) in
      let (within, p8) = require_bind-ok _ _ _ p7 in
      (
        subject,
        is_found ∙ ap ok is_subject,
        (
          is_chain ∙ ap ok (items_eq_strs→eq chain body.act_chain same),
          delegatable,
          permitted,
          is_delegatable,
          is_texts,
          within,
        ),
      )

  -- A sender that is accepted has a credential that was served for it, whose subject delegates what
  -- the assertion grants.
  pub resolve_sender-Delegates :
      (h h' : History) (result : Value)
      → Returns (resolve_sender cfg body claims) w h result h'
      → (sender : Fields) × (subject : Fields) × Served cfg body w sender
        × (subscript "credentialSubject" (obj sender) ≡ ok (obj subject))
        × Delegates w body claims subject
  unfolding resolve_sender find_sender
  resolve_sender-Delegates h h' result p =
      let (vcs, h1, served, p1) = bind-ok _ _ p in
      let (entries, is_list, p2) = lift_bind-ok _ _ p1 in
      let (sender, is_sender, p3) = lift_bind-ok _ _ (asks_bind-ok _ _ p2) in
      let found = found_document-ok _ _ sender is_sender in
      let (subject, is_subject, same) = find_document-ok w _ _ entries sender found in
      let (subject', is_subject', delegates) = check_sender-Delegates sender _ _ _ p3 in
      (
        sender,
        subject',
        (h, h1, vcs, entries, served, is_list, found, (subject, is_subject, same)),
        is_subject',
        delegates,
      )
