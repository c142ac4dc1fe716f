-- ===== src/Client/Tests.antt =====
-- Runs of the client of cross-domain-id-jag-vc/agntcy_identity_client.
use agent_identity_demos.Prelude.{
  List, ℕ, ◌<◌, ◌++◌, length, arith, ◌≡◌, refl, [], ◌∷◌, some, string_eq, nat_eq,
}
use agent_identity_demos.Value.{Value, Items, get_default, items_eq_strs, strs}
use agent_identity_demos.Effects.{
  ok, World, History, sent, request, requests, ◌>>=◌, json, as_dict, require,
}
use agent_identity_demos.Effects.Invert.{Returns}
use agent_identity_demos.Effects.Values.{items_of, list_of}
use agent_identity_demos.Base64.{b64decode, pad_segment}
use agent_identity_demos.Client.Der
use agent_identity_demos.Client.Der.Read
use agent_identity_demos.Client.Vc
use agent_identity_demos.Client.Vc.Live
use agent_identity_demos.Fixtures.{agent_world, vault_config}

abbrev grant : Vc.Grant
grant = record {
  subject_id = "AGNTCY-triage-agent";
  caps = [];
  delegating_user = "sarah";
  intent = "triage";
  delegatable = "gitea:write" ∷ "gitea:pr" ∷ [];
}

abbrev world : World
world = agent_world "sub-agent" "AGNTCY-triage-agent"

abbrev after : History
after = sent (Vc.well_known_request "http://node" "AGNTCY-triage-agent") ∷ []

found : Vc.find_live_badge "http://node" grant world [] ≡ (ok (some "h.e30.s"), after)
unfolding Vc.find_live_badge Vc.well_known_badges request json as_dict require get_default string_eq
    nat_eq ◌>>=◌ items_of Vc.find_in Vc.is_live Vc.decode_segment b64decode pad_segment
    Vc.still_valid Vc.subject_matches list_of items_eq_strs strs
found = refl

find_live_badge-Found_example :
    (vcs : Value) × (entries : Items) × (h1 : History) × Returns
      (Vc.well_known_badges "http://node" "AGNTCY-triage-agent")
      world
      []
      vcs
      h1
    × (items_of vcs ≡ ok entries)
    × Live.Found grant world h1 entries "h.e30.s"
find_live_badge-Found_example =
    Live.find_live_badge-Found grant world "http://node" "h.e30.s" [] after
      (record { returns = found })

issue_badge-reused_example :
    requests (Vc.issue_badge "http://node" vault_config grant [] 3600 world []).1
    ≡ Vc.verify_request "http://node" "h.e30.s"
      ∷ Vc.well_known_request "http://node" "AGNTCY-triage-agent"
      ∷ []
unfolding requests
issue_badge-reused_example =
    Live.issue_badge-reused "http://node" vault_config grant [] 3600 world [] after "h.e30.s" found

-- A key whose modulus is 200 and whose exponent is 65537.
abbrev modulus : List ℕ
modulus = 2 ∷ 2 ∷ 0 ∷ 200 ∷ []

abbrev exponent : List ℕ
exponent = 2 ∷ 3 ∷ 1 ∷ 0 ∷ 1 ∷ []

abbrev inner : List ℕ
inner = 48 ∷ 9 ∷ (modulus ++ exponent)

abbrev bits : List ℕ
bits = 3 ∷ 12 ∷ 0 ∷ inner

abbrev alg : List ℕ
alg = 48 ∷ 2 ∷ 5 ∷ 0 ∷ []

-- An element with a short length.
small :
    (tag : ℕ) (value : List ℕ)
    → length value < 128
    → Read.Element (tag ∷ length value ∷ value) value
small tag value h = Read.element tag (length value ∷ []) value (Read.short (length value) h)

rsa_public_numbers-Element_example :
    Der.rsa_public_numbers (48 ∷ 18 ∷ (alg ++ bits)) ≡ ok (200 ∷ [], 1 ∷ 0 ∷ 1 ∷ [])
unfolding Der.strip_leading_zero
rsa_public_numbers-Element_example =
    Read.rsa_public_numbers-Element (48 ∷ 18 ∷ (alg ++ bits)) alg (5 ∷ 0 ∷ []) bits inner modulus
      exponent (0 ∷ 200 ∷ []) (1 ∷ 0 ∷ 1 ∷ []) 0 (small 48 (alg ++ bits) (omega arith))
      (small 48 (5 ∷ 0 ∷ []) (omega arith)) (small 3 (0 ∷ inner) (omega arith))
      (small 48 (modulus ++ exponent) (omega arith)) (small 2 (0 ∷ 200 ∷ []) (omega arith))
      (small 2 (1 ∷ 0 ∷ 1 ∷ []) (omega arith))
