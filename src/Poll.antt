-- ===== src/Poll.antt =====
-- The loops that wait for a service: `wait_for` of cross-domain-id-jag-vc/identity-node-init.py and
-- `wait_for_directory` of cross-domain-id-jag-vc/agent-dir-init/init.py are this loop with different
-- pauses. `First` is about the attempt that ends it.
pub mod First
use agent_identity_demos.Prelude.{ℕ, zero, suc, Bool, true, false, if◌then◌else◌}
use agent_identity_demos.Effects.{M, pure, ◌>>=◌, ◌>>◌}

-- Up to `n` attempts, with a pause behind one that is not ready, which is told how many are left.
unfoldable pub poll : ℕ → M Bool → (ℕ → M (Unit {0})) → M Bool
poll zero probe pause = pure false
poll (suc n) probe pause =
    let rest = poll n probe pause in probe >>= λ ready. if ready then pure true else pause n >> rest
