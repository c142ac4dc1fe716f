-- ===== src/Client/Cimd.antt =====
-- cross-domain-id-jag-vc/agntcy_identity_client/cimd.py: identifiers at the Identity Node.
use agent_identity_demos.Prelude.{
  String, ◌<>◌, Bool, true, false, ◌&&◌, none, [], ◌==◌, nat_eq, if◌then◌else◌,
}
use agent_identity_demos.Prelude.Text.{rstrip_slash, includes}
use agent_identity_demos.Value.{Value, str, obj, end, field, get_default}
use agent_identity_demos.Effects.{
  cimd_error, M, pure, raise, require, ◌>>=◌, ◌>>◌, Request, http_post, json_body, request, json,
  as_dict,
}
use agent_identity_demos.Client.Vault.{VaultConfig, build_proof_jwt}

-- The parts of what `generate_id` returns.
pub record Generated : Type 0 where
  pub id : Value
  pub controller : Value
  pub already_registered : Bool

abbrev pub post_node : String → String → Value → Request
post_node url path payload = record {
  method = http_post;
  url = rstrip_slash url <> path;
  headers = [];
  auth = none;
  body = json_body payload;
}

abbrev pub jwt_proof : String → Value
jwt_proof proof_jwt = obj (field "type" (str "JWT") (field "proofValue" (str proof_jwt) end))

abbrev generate_request : String → VaultConfig → String → Request
generate_request url cfg proof_jwt = post_node url "/v1alpha1/id/generate" (
    obj (
      field "issuer"
        (obj (
          field "organization" (str cfg.common_name)
            (field "commonName" (str cfg.common_name) end)))
        (field "proof" (jwt_proof proof_jwt) end)))

abbrev pub well_known_id : String → String
well_known_id sub = "AGNTCY-" <> sub

unfoldable pub generate_id : String → VaultConfig → String → M Generated
generate_id url cfg sub = do
  proof_jwt ← build_proof_jwt cfg sub
  r ← request (generate_request url cfg proof_jwt)
  if r.status_code == 200
      then (do
        reply ← json r
        fields ← as_dict reply
        rm ← as_dict (get_default "resolverMetadata" (obj end) fields)
        pure (record {
          id = get_default "id" (str "") rm;
          controller = get_default "controller" (str "") rm;
          already_registered = false;
        }))
      else if r.status_code == 400 && includes r.text "ID_ALREADY_REGISTERED"
      then pure
          (record { id = str (well_known_id sub); controller = str ""; already_registered = true })
      else raise (cimd_error r.status_code r.text)

-- Returned raw, so it may be any value.
unfoldable pub resolve_id : String → Value → M Value
resolve_id url cimd_id = do
  r ← request (post_node url "/v1alpha1/id/resolve" (obj (field "id" cimd_id end)))
  require (r.status_code == 200) (cimd_error r.status_code r.text)
  reply ← json r
  fields ← as_dict reply
  pure (get_default "resolverMetadata" (obj end) fields)
