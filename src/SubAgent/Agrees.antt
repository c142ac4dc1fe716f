-- ===== src/SubAgent/Agrees.antt =====
-- What the step of cross-domain-id-jag-vc/sub-agent/app.py that resolves the sender's credential has
-- checked of a credential that it accepts.
use agent_identity_demos.Prelude.{
  String, ◌≡◌, ◌∙◌, sym, ap, subst, true, some, List, subset, string_eq,
}
use agent_identity_demos.Value.{
  Value, Fields, Items, str, arr, obj, nil, end, get, get_default, or_value, eq_str, strs,
  items_eq_strs→eq,
}
use agent_identity_demos.Effects.{ok, World, History, dict_result}
use agent_identity_demos.Effects.Values.{text_of, list_of, items_of}
use agent_identity_demos.Effects.Invert.{
  Returns, bind-ok, lift_bind-ok, asks_bind-ok, require_bind-ok, as_dict_bind-ok,
}
use agent_identity_demos.Client.Vc.{well_known_badges}
use agent_identity_demos.Credential.{scope_words, texts}
use agent_identity_demos.Credential.Found.{find_document-ok, found_document-ok, ok_eq}
use agent_identity_demos.SubAgent.Badge.{Config, RunRequest}
use agent_identity_demos.SubAgent.Sender.{
  parent_id, parent_chain, find_sender, check_sender, resolve_sender,
}

-- The credential's chain is ours without this hop, and each scope of the sub-badge is one that its
-- subject may delegate.
abbrev pub Delegates : World → RunRequest → Fields → Fields → Type 0
Delegates w body claims subject =
    (list_of (or_value (get "act_chain" subject) (arr nil)) ≡ ok (strs (parent_chain body)))
    × (delegatable : Items) × (may_delegate : List String) × (list_of
          (or_value (get "delegatable" subject) (arr nil))
        ≡ ok delegatable)
    × (texts delegatable ≡ ok may_delegate)
    × (subset (scope_words (text_of w (or_value (get "scope" claims) (str "")))) may_delegate
        ≡ true)

-- The subject is that of a credential that the Identity Node served for the agent before this one in
-- the chain, and is that agent.
abbrev pub Served : Config → RunRequest → World → Fields → Type 0
Served cfg body w subject =
    (h : History) × (h' : History) × (vcs : Value) × (entries : Items) × (sender : Fields) × Returns
      (well_known_badges cfg.identity_node_url (parent_id body.act_chain)) w h vcs h'
    × (items_of vcs ≡ ok entries)
    × (find_sender w (parent_id body.act_chain) entries ≡ ok (some sender))
    × (get_default "credentialSubject" (obj end) sender ≡ obj subject)
    × (eq_str (get "id" subject) (parent_id body.act_chain) ≡ true)

module _ (cfg : Config) (body : RunRequest) (w : World) (claims : Fields) where
  check_sender-Delegates :
      (sender : Fields) (h h' : History) (result : Value)
      → Returns (check_sender body claims sender) w h result h'
      → (subject : Fields) × (get_default "credentialSubject" (obj end) sender ≡ obj subject)
        × Delegates w body claims subject
  unfolding check_sender
  check_sender-Delegates sender h h' result p =
      let (subject, is_subject, p1) = as_dict_bind-ok _ _ p in
      let (chain, is_chain, p2) = lift_bind-ok _ _ p1 in
      let p3 = asks_bind-ok _ _ (asks_bind-ok _ _ p2) in
      let (same, p4) = require_bind-ok _ _ _ p3 in
      let (delegatable, is_delegatable, p5) = lift_bind-ok _ _ p4 in
      let (may_delegate, is_texts, p6) = lift_bind-ok _ _ p5 in
      let p7 = asks_bind-ok _ _ (asks_bind-ok _ _ p6) in
      let (within, p8) = require_bind-ok _ _ _ p7 in
      (
        subject,
        is_subject,
        (
          is_chain ∙ ap ok (items_eq_strs→eq chain (parent_chain body) same),
          delegatable,
          may_delegate,
          is_delegatable,
          is_texts,
          within,
        ),
      )

  -- A sender that is accepted has a credential about the agent before this one in the chain, and it
  -- delegates what the sub-badge grants.
  pub resolve_sender-Delegates :
      (h h' : History) (result : Value)
      → Returns (resolve_sender cfg body claims) w h result h'
      → (subject : Fields) × Served cfg body w subject × Delegates w body claims subject
  unfolding resolve_sender find_sender
  resolve_sender-Delegates h h' result p =
      let (vcs, h1, served, p1) = bind-ok _ _ p in
      let (entries, is_list, p2) = lift_bind-ok _ _ p1 in
      let (sender, is_sender, p3) = lift_bind-ok _ _ (asks_bind-ok _ _ p2) in
      let found = found_document-ok _ _ sender is_sender in
      let (subject, is_subject, same) = find_document-ok w _ _ entries sender found in
      let (subject', is_subject', delegates) = check_sender-Delegates sender _ _ _ p3 in
      let agrees = ok_eq (sym is_subject ∙ ap dict_result is_subject') in
      (
        subject',
        (
          h,
          h1,
          vcs,
          entries,
          sender,
          served,
          is_list,
          found,
          is_subject',
          subst (λ s. eq_str (get "id" s) (parent_id body.act_chain) ≡ true) agrees same,
        ),
        delegates,
      )
