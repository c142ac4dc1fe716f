-- ===== src/Client/Directory.antt =====
-- cross-domain-id-jag-vc/agntcy_identity_client/directory.py, over the gRPC calls of the world.
use agent_identity_demos.Prelude.{ℕ, String, List, [], ◌∷◌}
use agent_identity_demos.Value.{Value, Fields, str, num, obj, end, field}
use agent_identity_demos.Effects.{Result, ok, err, M, pushed, searched}

abbrev pub oasf_schema_version : String
oasf_schema_version = "1.1.0"

-- `refs[0].cid if refs else ""`
abbrev pub first_cid : Result (List String) → Result String
first_cid (err e) = err e
first_cid (ok []) = ok ""
first_cid (ok (cid ∷ refs)) = ok cid

unfoldable pub push_record : String → Value → M String
push_record url record_dict w h =
    (first_cid (w.dir_push h url record_dict), pushed url record_dict ∷ h)

unfoldable pub search_by_name : String → String → ℕ → M (List Fields)
search_by_name url agent_name limit w h =
    (w.dir_search h url agent_name limit, searched url agent_name ∷ h)

-- A skill or a domain of a record.
abbrev pub entry : String → ℕ → Value
entry name id = obj (field "name" (str name) (field "id" (num id) end))

-- `records[0] if records else {}`
abbrev pub first_record : List Fields → Fields
first_record [] = end
first_record (r ∷ records) = r
