-- ===== src/Handover.antt =====
-- How triage-agent/app.py and sub-agent/app.py of cross-domain-id-jag-vc fit together: what Triage
-- asks Keycloak B for, what it publishes about itself and what it sends to `/api/run` of the
-- sub-agent agree, so that the sub-agent's checks of the badge and of the sender pass.
pub mod Tests
use agent_identity_demos.Prelude.{
  sym, String, ◌<>◌, ◌≡◌, refl, ◌∙◌, ap, Bool, true, false, ◌||◌, ◌&&◌, List, [], ◌∷◌, ◌++◌, arith,
  contains, subset, string_eq, ◌==◌, if◌then◌else◌,
}
use agent_identity_demos.Value.{
  items_contain, Value, Fields, Items, str, obj, arr, nil, cons, end, field, get, get_default,
  or_value, strs, string_eq_refl,
}
use agent_identity_demos.Effects.{ok, World}
use agent_identity_demos.Effects.Values.{text_of, list_of, value_contains}
use agent_identity_demos.Credential.{scope_words, texts}
use agent_identity_demos.Client.Vc.{Grant, subject_of}
use agent_identity_demos.SubAgent.Badge.{RunRequest, init, ends_at, is_empty_list, allowed_scopes}
use agent_identity_demos.SubAgent.Badge
use agent_identity_demos.SubAgent.Sender.{parent_id, parent_chain}
use agent_identity_demos.SubAgent.Accepts.{Permits}
use agent_identity_demos.SubAgent.Agrees.{Delegates}
use agent_identity_demos.Triage.Ticket.{Config, TicketRequest}
use agent_identity_demos.Triage.Steps.{grant_of, sub_chain}
use agent_identity_demos.Triage.Delegate.{Approved, spawn_payload}

-- The body of `/api/run` as the sub-agent reads it, for a payload whose fields have their types.
abbrev pub spawned : Config → TicketRequest → String → String → RunRequest
spawned cfg body ticket_id sub_badge = record {
  sub_badge = sub_badge;
  repo = body.repo;
  intent = body.intent;
  act_chain = sub_chain cfg body ++ (cfg.sub_agent_client_id ∷ []);
  ticket_id = ticket_id;
}

-- What the sub-agent reads is what Triage has put into the payload.
abbrev pub Reads : Fields → RunRequest → Type 0
Reads payload body =
    (get "sub_badge" payload ≡ str body.sub_badge)
    × (get "repo" payload ≡ str body.repo)
    × (get "intent" payload ≡ str body.intent)
    × (get "act_chain" payload ≡ arr (strs body.act_chain))
    × (get "ticket_id" payload ≡ str body.ticket_id)

init_snoc : (chain : List String) (a : String) → init (chain ++ (a ∷ [])) ≡ chain
unfolding init
init_snoc [] a = refl
init_snoc (b ∷ []) a = refl
init_snoc (b ∷ c ∷ chain) a = ap (λ xs. b ∷ xs) (init_snoc (c ∷ chain) a)

ends_at_snoc : (chain : List String) (a : String) → ends_at a (chain ++ (a ∷ [])) ≡ true
unfolding ends_at
ends_at_snoc [] a = string_eq_refl a
ends_at_snoc (b ∷ []) a = string_eq_refl a
ends_at_snoc (b ∷ c ∷ chain) a = ends_at_snoc (c ∷ chain) a

parent_id_snoc :
    (chain : List String) (b a : String)
    → parent_id ((chain ++ (b ∷ [])) ++ (a ∷ [])) ≡ "AGNTCY-" <> b
unfolding parent_id
parent_id_snoc [] b a = refl
parent_id_snoc (c ∷ []) b a = refl
parent_id_snoc (c ∷ d ∷ []) b a = refl
parent_id_snoc (c ∷ d ∷ e ∷ chain) b a = parent_id_snoc (d ∷ e ∷ chain) b a

texts-strs : (ss : List String) → texts (strs ss) ≡ ok ss
unfolding texts strs
texts-strs [] = refl
texts-strs (s ∷ ss) = rw (texts-strs ss)

subset_cons : (xs ys : List String) (y : String) → subset xs ys ≡ true → subset xs (y ∷ ys) ≡ true
unfolding subset contains
subset_cons [] ys y h = refl
subset_cons (x ∷ xs) ys y h = ground (arith, subset_cons xs ys y)

subset_refl : (xs : List String) → subset xs xs ≡ true
unfolding subset contains
subset_refl [] = refl
subset_refl (x ∷ xs) = ground (arith, subset_cons xs xs x, subset_refl xs, string_eq_refl x)

-- The shape of claims that answer the exchange: Keycloak B signs what Triage asked for.
abbrev pub Minted : Config → TicketRequest → Approved → Fields → Type 0
Minted cfg body a claims =
    (get "client_id" claims ≡ str cfg.sub_agent_client_id)
    × ((act : Fields) × (get "act" claims ≡ obj act)
        × (get "act_chain" act ≡ arr (strs (sub_chain cfg body))))
    × (get "scope" claims ≡ str a.scope)
    × (get "resource" claims ≡ arr (cons (str a.resource) nil))
    × (get "intent" claims ≡ arr (cons (str body.intent) nil))

or_text : (s : String) → or_value (str s) (str "") ≡ str s
or_text String.[] = refl
or_text (String.◌∷◌ c s) = refl

or_chain : (chain : List String) → or_value (arr (strs chain)) (arr nil) ≡ arr (strs chain)
unfolding strs
or_chain [] = refl
or_chain (a ∷ chain) = refl

or_claims :
    (act : Fields) (chain : List String)
    → get "act_chain" act ≡ arr (strs chain)
    → or_value (obj act) (obj end) ≡ obj act
or_claims end chain p = refl
or_claims (field k v fs) chain p = refl

module _ (cfg : Config) (body : TicketRequest) (a : Approved) (ticket_id sub_badge : String) where
  -- The payload of the spawn reads back as the request of the sub-agent.
  spawn_payload-Reads :
      Reads (spawn_payload cfg body ticket_id sub_badge) (spawned cfg body ticket_id sub_badge)
  unfolding spawn_payload get_default string_eq
  spawn_payload-Reads = (refl, refl, refl, refl, refl)

  Minted-Permits :
      (sub_cfg : Badge.Config) (claims : Fields)
      → cfg.sub_agent_client_id ≡ sub_cfg.sub_agent_client_id
      → Minted cfg body a claims
      → is_empty_list (scope_words a.scope) ≡ false
      → subset (scope_words a.scope) allowed_scopes ≡ true
      → a.resource ≡ body.repo
      → Permits sub_cfg (spawned cfg body ticket_id sub_badge) claims
  unfolding value_contains items_contain
  Minted-Permits sub_cfg claims same (target, (act, is_act, is_chain), scope, resource, intent)
        some_scope within repo =
      (
        target ∙ ap str same,
        ap (λ x. ends_at x (sub_chain cfg body ++ (cfg.sub_agent_client_id ∷ []))) (sym same)
            ∙ ends_at_snoc (sub_chain cfg body) cfg.sub_agent_client_id,
        (
          act,
          rw is_act (or_claims act (sub_chain cfg body) is_chain),
          rw (is_chain, init_snoc (sub_chain cfg body) cfg.sub_agent_client_id)
              (or_chain (sub_chain cfg body)),
        ),
        (a.scope, rw scope (or_text a.scope), some_scope, within),
        rw (resource, repo, string_eq_refl body.repo),
        rw (intent, string_eq_refl body.intent),
      )

  Published-Delegates :
      (w : World) (id held : String) (claims : Fields)
      → Minted cfg body a claims
      → (subject : Fields) × (subject_of (grant_of body id held a.scope) (sub_chain cfg body)
          ≡ obj subject)
        × Delegates w (spawned cfg body ticket_id sub_badge) claims subject
  unfolding get_default string_eq list_of
  Published-Delegates w id held claims (target, chain, scope, resource, intent) = (
    _,
    refl,
    (
      ap (λ v. list_of v) (or_chain (sub_chain cfg body))
          ∙ ap (λ x. ok (strs x)) (sym (init_snoc (sub_chain cfg body) cfg.sub_agent_client_id)),
      strs (scope_words a.scope),
      scope_words a.scope,
      ap (λ v. list_of v) (or_chain (scope_words a.scope)),
      texts-strs (scope_words a.scope),
      rw (scope, or_text a.scope) (subset_refl (scope_words a.scope)),
    ),
  )

  -- For claims that Keycloak B signs as Triage asked, with a scope that the sub-agent may hold and
  -- the ticket's repository, the sub-agent's checks of the badge hold of what Triage sends it, and its
  -- checks of the sender hold of the credential that Triage has published about itself. That
  -- credential is looked up under the name of Triage.
  pub spawned-accepted :
      (sub_cfg : Badge.Config) (w : World) (id held : String) (claims : Fields)
      → cfg.sub_agent_client_id ≡ sub_cfg.sub_agent_client_id
      → Minted cfg body a claims
      → is_empty_list (scope_words a.scope) ≡ false
      → subset (scope_words a.scope) allowed_scopes ≡ true
      → a.resource ≡ body.repo
      → Reads (spawn_payload cfg body ticket_id sub_badge) (spawned cfg body ticket_id sub_badge)
        × Permits sub_cfg (spawned cfg body ticket_id sub_badge) claims
        × ((subject : Fields) × (subject_of (grant_of body id held a.scope) (sub_chain cfg body)
              ≡ obj subject)
            × Delegates w (spawned cfg body ticket_id sub_badge) claims subject)
        × (parent_id (spawned cfg body ticket_id sub_badge).act_chain
            ≡ "AGNTCY-" <> cfg.triage_client_id)
  unfolding sub_chain
  spawned-accepted sub_cfg w id held claims same minted some_scope within repo = (
    spawn_payload-Reads,
    Minted-Permits sub_cfg claims same minted some_scope within repo,
    Published-Delegates w id held claims minted,
    parent_id_snoc _ cfg.triage_client_id cfg.sub_agent_client_id,
  )
