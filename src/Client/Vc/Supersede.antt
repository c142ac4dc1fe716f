-- ===== src/Client/Vc/Supersede.antt =====
-- `supersede_badges` of cross-domain-id-jag-vc/agntcy_identity_client/vc.py, which no service calls.
use agent_identity_demos.Prelude.{String, ◌||◌, not, Option, none, some, if◌then◌else◌}
use agent_identity_demos.Value.{Value, Items, nil, cons, truthy, eq_str}
use agent_identity_demos.Effects.{Exn, vc_error, M, ok, pure, raise, catch, lift, ◌>>=◌, ◌>>◌}
use agent_identity_demos.Effects.Values.{as_text, items_of}
use agent_identity_demos.Client.Vault.{VaultConfig}
use agent_identity_demos.Client.Vc.{revoke_badge, credential_id, value_at, well_known_badges}

-- Only a `VcError` lets the loop go on.
vc_error_passes : Exn → M (Option Value)
vc_error_passes (vc_error op status body) = pure none
vc_error_passes e = raise e

credential_id_of : String → M (Option Value)
unfolding credential_id
credential_id_of jws w h = (ok (some (credential_id w jws)), h)

unfoldable pub revoke_one : String → VaultConfig → String → Value → M (Option Value)
unfolding vc_error_passes credential_id_of
revoke_one url cfg subject_id jws =
    catch (revoke_badge url cfg jws subject_id >> lift (as_text jws) >>= credential_id_of)
      vc_error_passes

abbrev cons_some : Option Value → Items → Items
cons_some none vs = vs
cons_some (some v) vs = cons v vs

unfoldable pub supersede_in : String → VaultConfig → String → String → Items → M Items
supersede_in url cfg subject_id keep_jws nil = pure nil
supersede_in url cfg subject_id keep_jws (cons entry entries) =
    let rest = supersede_in url cfg subject_id keep_jws entries in
    value_at entry >>= λ jws.
    if not (truthy jws) || eq_str jws keep_jws
    then rest
    else (revoke_one url cfg subject_id jws >>= λ revoked.
        rest >>= λ others. pure (cons_some revoked others))

-- The ids of the credentials that were revoked.
unfoldable pub supersede_badges : String → VaultConfig → String → String → M Items
supersede_badges url cfg subject_id keep_jws = do
  vcs ← well_known_badges url subject_id
  entries ← lift (items_of vcs)
  supersede_in url cfg subject_id keep_jws entries
