-- ===== src/Triage/Order.antt =====
-- The order of the phases of `receive_ticket` in cross-domain-id-jag-vc/triage-agent/app.py: what is
-- behind a ticket that was not admitted, and what has gone before a sub-badge.
use agent_identity_demos.Prelude.{
  subst, [], true, ◌<>◌, String, ◌≡◌, refl, ◌∙◌, sym, ap, false, Option, none, some, List, ◌∷◌,
  arith, inl, inr, Bool-cases, string_eq, ◌==◌, if◌then◌else◌, nat_eq,
}
use agent_identity_demos.Prelude.Text.{is_empty}
use agent_identity_demos.Value.{Value, Fields, str, obj}
use agent_identity_demos.Effects.{
  fetched_key, exn_text, Response, Exn, http_exception, ok, err, World, History, ◌>>=◌, require,
}
use agent_identity_demos.Effects.Invert.{
  Returns, bind-ok, pure-ok, request_bind-ok, if-ok, json_bind-ok, lift_bind-ok, as_dict_bind-ok,
  asks_bind-ok, asks-ok,
}
use agent_identity_demos.Effects.Once.{AtMost}
use agent_identity_demos.Phase.{or_stop}
use agent_identity_demos.Step.{fails_with, failed, Step, stopped, passed}
use agent_identity_demos.Phase.Passed.{or_stop-passed, passed_eq, phase-passed, go_on_bind-passed}
use agent_identity_demos.Triage.Accepts.{verify_idjag-Once}
use agent_identity_demos.Triage.Delegate.{
  Approved, approved, scope_phase, scope_check_request, mint_phase, mint_request,
}
use agent_identity_demos.Triage.Agrees.{Served, Delegates, resolve_sender-Delegates}
use agent_identity_demos.Triage.Sender.{sender_phase}
use agent_identity_demos.Effects.Values.{subscript, as_text→eq}
use agent_identity_demos.Triage.Ticket.{jwks_url, verify_idjag, Config, TicketRequest}
use agent_identity_demos.Triage.Receive.{
  ingress_step, depth_of, verify_step, TicketHeaders, bearer, is_allowed, admit, actor_of,
  verify_phase, ticket_reply, delegation, receive_ticket,
}

abbrev unless_allowed : Option String → Option String → Option Exn
unless_allowed none decision = some (http_exception 401 (str "missing bearer token"))
unless_allowed (some token) decision =
    if is_allowed decision
    then none
    else some (http_exception 403 (str "ticket requests must pass the Org B Envoy policy gateway"))

-- Why a request is refused: it has no bearer token, or Envoy's decision is not ALLOW.
abbrev pub refusal_of : TicketHeaders → Option Exn
refusal_of hs = unless_allowed (bearer hs.authorization) hs.policy_decision

some_eq : {a b : Exn} → some a ≡ some b → a ≡ b
some_eq p = ground (arith, p)

refused_admit :
    (hs : TicketHeaders) (token : Option String) (e : Exn) (w : World) (h : History)
    → bearer hs.authorization ≡ token
    → unless_allowed token hs.policy_decision ≡ some e
    → admit hs w h ≡ (err e, h)
unfolding admit ◌>>=◌ require
refused_admit hs none e w h given why = rw given (ap (λ x. (err x, h)) (some_eq why))
refused_admit hs (some token) e w h given why = elim (Bool-cases (is_allowed hs.policy_decision)) [
  | inl allowed ↦ absurd (ground (arith, rw allowed at why))
  | inr denied ↦ rw (given, denied) (ap (λ x. (err x, h)) (some_eq (rw denied at why)))
]

admit-allowed :
    (hs : TicketHeaders) (token : String) (depth : Value) (w : World) (h : History)
    → bearer hs.authorization ≡ some token
    → is_allowed hs.policy_decision ≡ true
    → depth_of hs.delegation_depth ≡ ok depth
    → admit hs w h ≡ (ok (token, ingress_step hs depth), h)
unfolding admit ◌>>=◌ require
admit-allowed hs token depth w h given allowed counted = rw (given, allowed, counted)

actor_of-bearer :
    (header : Option String) (token : String) → bearer header ≡ some token → actor_of header ≡ token
actor_of-bearer header token p = rw (p, actor_of)

-- A request that has not come through Envoy with its decision is refused before anything happens:
-- without a bearer token by 401, and without the decision ALLOW by 403.
pub receive_ticket-refused :
    (cfg : Config) (hs : TicketHeaders) (body : TicketRequest) (w : World) (h : History) (e : Exn)
    → refusal_of hs ≡ some e
    → receive_ticket cfg hs body w h ≡ (err e, h)
unfolding receive_ticket ◌>>=◌
receive_ticket-refused cfg hs body w h e why = rw (refused_admit hs _ e w h refl why)

module _ (cfg : Config) (body : TicketRequest) (w : World) where
  abbrev pub refused_step : Exn → Step
  refused_step e =
      failed ("in-agent ID-JAG verification failed: " <> exn_text w e) (verify_step cfg)

  verify_phase-refused :
      (actor : String) (h h' : History) (e : Exn)
      → is_empty actor ≡ false
      → verify_idjag cfg actor body w h ≡ (err e, h')
      → verify_phase cfg body actor w h ≡ (ok (stopped (refused_step e ∷ [])), h')
  unfolding verify_phase or_stop fails_with ◌>>=◌
  verify_phase-refused actor h h' e some_ refused = rw (some_, refused)

  -- A ticket that was admitted and brings an assertion that does not verify is answered without an
  -- identifier, with the echo of Envoy's decision and the one failed step; and all that has happened
  -- is at most the fetch of a key for the assertion from Keycloak A.
  pub receive_ticket-unverified :
      (hs : TicketHeaders) (token assertion : String) (depth : Value) (h h' : History) (e : Exn)
      → bearer hs.authorization ≡ some token
      → is_allowed hs.policy_decision ≡ true
      → depth_of hs.delegation_depth ≡ ok depth
      → bearer hs.actor_token ≡ some assertion
      → is_empty assertion ≡ false
      → verify_idjag cfg assertion body w h ≡ (err e, h')
      → (receive_ticket cfg hs body w h
          ≡ (ok (ticket_reply false "" (ingress_step hs depth ∷ refused_step e ∷ [])), h'))
        × AtMost (fetched_key (jwks_url cfg) assertion) h h'
  unfolding receive_ticket ◌>>=◌
  receive_ticket-unverified hs token assertion depth h h' e given allowed counted brought some_
        refused =
      (
        rw (
          admit-allowed hs token depth w h given allowed counted,
          verify_phase-refused (actor_of hs.actor_token) h h' e
              (subst (λ a. is_empty a ≡ false) (sym (actor_of-bearer _ _ brought)) some_)
              (subst (λ a. verify_idjag cfg a body w h ≡ (err e, h'))
                (sym (actor_of-bearer _ _ brought)) refused),
        ),
        subst (λ x. AtMost (fetched_key (jwks_url cfg) assertion) h x.1) refused
            ((verify_idjag-Once body w cfg assertion).once h),
      )

  scope_phase-passed :
      (token : String) (h h' : History) (steps : List Step) (a : Approved)
      → Returns (scope_phase cfg body token) w h (passed steps a) h'
      → (r : Response) × (w.send h (scope_check_request cfg body token) ≡ ok r)
        × (r.status_code ≡ 200)
        × (a ≡ approved body r)
  unfolding scope_phase
  scope_phase-passed token h h' steps a p =
      let q = or_stop-passed _ _ _ _ _ _ _ _ p in
      let (r, sent_it, q1) = request_bind-ok _ _ q in
      elim (if-ok (r.status_code == 200) _ _ _ _ _ _ q1) [
        | inl (good, q2) ↦
            (r, sent_it, ground arith, sym (passed_eq _ _ _ _ (sym (pure-ok _ _ _ _ _ q2))))
        | inr (bad, q2) ↦ absurd (ground (arith, pure-ok _ _ _ _ _ q2))
      ]

  mint_phase-passed :
      (token : String) (a : Approved) (h h' : History) (steps : List Step) (sub_badge : String)
      → Returns (mint_phase cfg body token a) w h (passed steps sub_badge) h'
      → (r : Response) × (w.send h (mint_request cfg body token a) ≡ ok r)
        × (r.status_code ≡ 200)
        × ((reply : Value) × (r.json ≡ some reply)
            × (subscript "access_token" reply ≡ ok (str sub_badge)))
  unfolding mint_phase
  mint_phase-passed token a h h' steps sub_badge p =
      let p0 = asks_bind-ok _ _ p in
      let q = or_stop-passed _ _ _ _ _ _ _ _ p0 in
      let (r, sent_it, q1) = request_bind-ok _ _ q in
      elim (if-ok (r.status_code == 200) _ _ _ _ _ _ q1) [
        | inl (good, q2) ↦
            let (reply, is_json, q3) = json_bind-ok _ _ q2 in
            let (found, is_found, q4) = lift_bind-ok _ _ q3 in
            let (badge, is_text, q5) = lift_bind-ok _ _ q4 in
            let (fields, is_fields, q6) = as_dict_bind-ok _ _ q5 in
            let same = passed_eq _ _ _ _ (asks-ok _ _ _ _ _ q6) in
            (
              r,
              sent_it,
              ground arith,
              (reply, is_json, is_found ∙ ap ok (as_text→eq _ _ is_text ∙ ap str (sym same))),
            )
        | inr (bad, q2) ↦ absurd (ground (arith, pure-ok _ _ _ _ _ q2))
      ]

  -- A sub-badge comes only from a ticket whose sender has a credential, served by the Identity Node
  -- and declaring an authority to delegate, that delegates what the assertion grants; for which the
  -- policy of Org B answered 200; and it is the access token with which Keycloak B answered the
  -- exchange for just the scope and the resource that the policy approved.
  pub delegation-Delegates :
      (token : String) (claims : Fields) (h h' : History) (steps : List Step) (sub_badge : String)
      → Returns (delegation cfg body token claims) w h (passed steps sub_badge) h'
      → ((sender : Fields) × (subject : Fields) × Served cfg body w sender
          × (subscript "credentialSubject" (obj sender) ≡ ok (obj subject))
          × Delegates w body claims subject)
        × (h1 : History) × (r : Response) × (w.send h1 (scope_check_request cfg body token) ≡ ok r)
        × (r.status_code ≡ 200)
        × (h2 : History) × (r' : Response) × (w.send h2
              (mint_request cfg body token (approved body r))
            ≡ ok r')
        × (r'.status_code ≡ 200)
        × ((reply : Value) × (r'.json ≡ some reply)
            × (subscript "access_token" reply ≡ ok (str sub_badge)))
  unfolding delegation sender_phase
  delegation-Delegates token claims h h' steps sub_badge p =
      let (_, _, h1, in_sender, _, h2, p1) = phase-passed _ _ p in
      let (_, id, h3, in_register, _, h4, p2) = phase-passed _ _ p1 in
      let (_, a, h5, in_scope, _, h6, p3) = phase-passed _ _ p2 in
      let (_, _, h7, in_badge, _, h8, p4) = phase-passed _ _ p3 in
      let (_, _, h9, in_plan, _, h10, p5) = phase-passed _ _ p4 in
      let (s, h11, in_resolve, _) = go_on_bind-passed _ _ _ _ _ _ _ _ _ in_sender in
      let (result, h12, resolved, _) = bind-ok _ _ in_resolve in
      let (r, asked, allowed, same) = scope_phase-passed token _ _ _ a in_scope in
      let (r', minting, minted, badge) = mint_phase-passed token a _ _ _ sub_badge p5 in
      (
        resolve_sender-Delegates cfg body w claims _ _ result resolved,
        h3,
        r,
        asked,
        allowed,
        h9,
        r',
        ap (λ x. w.send h9 (mint_request cfg body token x)) (sym same) ∙ minting,
        minted,
        badge,
      )
