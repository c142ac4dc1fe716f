-- ===== src/SubAgent/Contained.antt =====
-- Where `run` of cross-domain-id-jag-vc/sub-agent/app.py sends its requests.
use agent_identity_demos.Prelude.{none, String, ◌<>◌, ◌≡◌, [], ◌∷◌, ◌⊎◌, inl}
use agent_identity_demos.Value.{Value}
use agent_identity_demos.Effects.{World, Request}
use agent_identity_demos.Effects.Sends.{Policy, Sends}
use agent_identity_demos.Client.Contained.{ToVault, ToNode}
use agent_identity_demos.Step.{Step}
use agent_identity_demos.SubAgent.Badge.{jwks_url, Config, RunRequest}
use agent_identity_demos.SubAgent.Run.{exchange_request}

-- The request goes to the gateway, and its headers of its own are an access token and the sub-badge.
abbrev pub ToGateway : Config → RunRequest → Request → Type 0
ToGateway cfg body r =
    (path : String) × (r.url ≡ cfg.gitea_gateway_url <> path)
    × ((token : String) × (r.headers
          ≡ ("Authorization", "Bearer " <> token)
            ∷ ("X-AGNTCY-Actor-Token", "Bearer " <> body.sub_badge)
            ∷ []))
    × (r.auth ≡ none)

-- The four kinds of request that the sub-agent sends, the key that it has PyJWT fetch, and where it
-- pushes its record.
abbrev pub Contained : Config → RunRequest → Policy
Contained cfg body = record {
  may_send = λ r.
      ToVault cfg.vault_cfg r
      ⊎ (ToNode cfg.identity_node_url r ⊎ ((r ≡ exchange_request cfg body) ⊎ ToGateway cfg body r));
  may_fetch = λ url token. (url ≡ jwks_url cfg) × (token ≡ body.sub_badge);
  may_push = λ url v. url ≡ cfg.dir_apiserver_url;
  may_search = λ url name. ⊥;
}

module _ (cfg : Config) (body : RunRequest) (w : World) where
  abbrev P : Policy
  P = Contained cfg body

  vault : (r : Request) → ToVault cfg.vault_cfg r → P.may_send r
  vault r p = inl p
