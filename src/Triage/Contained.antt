-- ===== src/Triage/Contained.antt =====
-- Where `receive_ticket` of cross-domain-id-jag-vc/triage-agent/app.py sends its requests.
use agent_identity_demos.Prelude.{ℕ, String, ◌≡◌, refl, ◌⊎◌, inl, inr}
use agent_identity_demos.Value.{Fields, Items, nil, cons}
use agent_identity_demos.Effects.{signing_key, World, History, Request, request}
use agent_identity_demos.Effects.Sends.{
  Sends-bind, Sends-signing_key, Policy, Each, Sends, Sends-pure, Sends-request, sends_rules,
}
use agent_identity_demos.Client.Directory.{search_by_name}
use agent_identity_demos.Client.Contained.{ToVault, ToNode, well_known_badges-Sends}
use agent_identity_demos.Step.{Step, Outcome, stopped, passed}
use agent_identity_demos.Phase.Requests.{phase_rules}
use agent_identity_demos.Register.Contained.{
  push_turn-Sends, register_phase-Sends, registration-Sends, badge_phase-Sends,
}
use agent_identity_demos.Triage.Ticket.{jwks_url, Config, TicketRequest, verify_idjag, check_ticket}
use agent_identity_demos.Triage.Sender.{sender_phase, resolve_sender, check_sender}
use agent_identity_demos.Triage.Steps.{
  cimd_register, publish_phase, dir_push_turn, dir_search, skill_names,
}
use agent_identity_demos.Triage.Delegate.{
  Approved, scope_check_request, scope_phase, mint_request, mint_phase, spawn_request, spawn,
}
use agent_identity_demos.Triage.Receive.{
  actor_of, TicketHeaders, admit, verify_phase, delegation, hand_over, lifecycle, receive_ticket,
}

-- The five kinds of request that the triage agent sends, the key that it has PyJWT fetch for an
-- assertion, and where it pushes its record and looks for the sub-agent.
abbrev pub Contained : Config → TicketRequest → String → Policy
Contained cfg body actor = record {
  may_send = λ r.
      ToVault cfg.vault_cfg r
      ⊎ (ToNode cfg.identity_node_url r
          ⊎ (((token : String) × (r ≡ scope_check_request cfg body token))
              ⊎ (((token : String) × (a : Approved) × (r ≡ mint_request cfg body token a))
                  ⊎ ((id : String) × (badge : String) × (r ≡ spawn_request cfg body id badge)))));
  may_fetch = λ url token. (url ≡ jwks_url cfg) × (token ≡ actor);
  may_push = λ url v. url ≡ cfg.dir_apiserver_url;
  may_search = λ url name. (url ≡ cfg.dir_apiserver_url) × (name ≡ cfg.sub_agent_client_id);
}

module _ (cfg : Config) (body : TicketRequest) (w : World) (actor : String) where
  abbrev P : Policy
  P = Contained cfg body actor

  vault : (r : Request) → ToVault cfg.vault_cfg r → P.may_send r
  vault r p = inl p

  at_node : (r : Request) → ToNode cfg.identity_node_url r → P.may_send r
  at_node r p = inr (inl p)

  scope_check_request-Sends :
      (token : String) → Sends P (request (scope_check_request cfg body token)) w
  scope_check_request-Sends token = Sends-request _ (inr (inr (inl (token, refl))))

  mint_request-Sends :
      (token : String) (a : Approved) → Sends P (request (mint_request cfg body token a)) w
  mint_request-Sends token a = Sends-request _ (inr (inr (inr (inl (token, a, refl)))))

  spawn_request-Sends : (id badge : String) → Sends P (request (spawn_request cfg body id badge)) w
  spawn_request-Sends id badge = Sends-request _ (inr (inr (inr (inr (id, badge, refl)))))

  search_by_name-Sends :
      (limit : ℕ) → Sends P (search_by_name cfg.dir_apiserver_url cfg.sub_agent_client_id limit) w
  unfolding search_by_name
  search_by_name-Sends limit = record { sends = λ h p. ((refl, refl), p) }

  signing_key-Sends : Sends P (signing_key (jwks_url cfg) actor) w
  signing_key-Sends = Sends-signing_key _ _ (refl, refl)

  dir_push_turn-Sends : (id : String) → Sends P (dir_push_turn cfg body id) w
  unfolding dir_push_turn
  dir_push_turn-Sends id = push_turn-Sends _ _ _ _ (λ v. refl)

  skill_names-Sends : (skills : Items) → Sends P (skill_names skills) w
  unfolding skill_names
  skill_names-Sends nil = Sends-pure _
  skill_names-Sends (cons v vs) = let rest = skill_names-Sends vs in search sends_rules depth 40

  admit-Sends : (hs : TicketHeaders) → Sends P (admit hs) w
  unfolding admit
  admit-Sends hs = search sends_rules depth 40

  verify_phase-Sends : Sends P (verify_phase cfg body actor) w
  unfolding verify_phase verify_idjag check_ticket
  verify_phase-Sends = search (signing_key-Sends, sends_rules, phase_rules) depth 80

  sender_phase-Sends : (claims : Fields) → Sends P (sender_phase cfg body claims) w
  unfolding sender_phase resolve_sender check_sender
  sender_phase-Sends claims =
      search
        (
          sends_rules,
          phase_rules,
          well_known_badges-Sends {P = P} cfg.vault_cfg w vault cfg.identity_node_url at_node,
        )
        depth 80

  publish_phase-Sends :
      (claims : Fields) (id scope : String) → Sends P (publish_phase cfg body claims id scope) w
  unfolding publish_phase
  publish_phase-Sends claims id scope =
      badge_phase-Sends {P = P} cfg.vault_cfg cfg.identity_node_url vault at_node _ _ _
        (search sends_rules depth 20)

  scope_phase-Sends : (token : String) → Sends P (scope_phase cfg body token) w
  unfolding scope_phase
  scope_phase-Sends token = search (scope_check_request-Sends, sends_rules, phase_rules) depth 60

  mint_phase-Sends : (token : String) (a : Approved) → Sends P (mint_phase cfg body token a) w
  unfolding mint_phase
  mint_phase-Sends token a = search (mint_request-Sends, sends_rules, phase_rules) depth 60

  delegation-Sends :
      (token : String) (claims : Fields) → Sends P (delegation cfg body token claims) w
  unfolding delegation cimd_register
  delegation-Sends token claims =
      search
        (
          phase_rules,
          sends_rules,
          sender_phase-Sends,
          register_phase-Sends,
          registration-Sends {P = P} cfg.vault_cfg cfg.identity_node_url vault at_node,
          scope_phase-Sends,
          publish_phase-Sends,
          mint_phase-Sends,
        )
        depth 60

  dir_search-Sends : Sends P (dir_search cfg) w
  unfolding dir_search
  dir_search-Sends =
      search (sends_rules, phase_rules, search_by_name-Sends, skill_names-Sends) depth 60

  spawn-Sends : (id badge : String) → Sends P (spawn cfg body id badge) w
  unfolding spawn
  spawn-Sends id badge = search (spawn_request-Sends, sends_rules, phase_rules) depth 60

  hand_over-Sends : (badge : String) → Sends P (hand_over cfg body badge) w
  unfolding hand_over
  hand_over-Sends badge =
      search (sends_rules, dir_push_turn-Sends, dir_search-Sends, spawn-Sends) depth 60

  lifecycle-Sends :
      (token : String) (ingress : Step) (outcome : Outcome Fields)
      → Sends P (lifecycle cfg body token ingress outcome) w
  lifecycle-Sends token ingress (stopped steps) = Sends-pure _
  lifecycle-Sends token ingress (passed steps claims) =
      search (sends_rules, phase_rules, delegation-Sends, hand_over-Sends) depth 60

module _ (cfg : Config) (body : TicketRequest) (w : World) where
  receive_ticket-Sends :
      (hs : TicketHeaders)
      → Sends (Contained cfg body (actor_of hs.actor_token)) (receive_ticket cfg hs body) w
  unfolding receive_ticket
  receive_ticket-Sends hs = Sends-bind _ _ (admit-Sends cfg body w _ hs) (λ admitted.
      Sends-bind _ _ (verify_phase-Sends cfg body w _)
        (λ outcome. lifecycle-Sends cfg body w _ _ _ outcome))

  -- If all events before a ticket are allowed, so are all after it, whatever is answered: a request is
  -- to Vault's Transit with its token, to the Identity Node with no header of its own, the question for
  -- the scope, the minting of a sub-badge or the spawn of the sub-agent for this ticket; PyJWT fetches
  -- a key for the ticket's assertion from Keycloak A only; a record is pushed to the configured
  -- Directory only; and only the sub-agent is looked for there.
  pub receive_ticket-Contained :
      (hs : TicketHeaders) (h : History)
      → Each (Contained cfg body (actor_of hs.actor_token)) h
      → Each (Contained cfg body (actor_of hs.actor_token)) (receive_ticket cfg hs body w h).1
  receive_ticket-Contained hs h p = (receive_ticket-Sends hs).sends h p
