-- ===== src/Environ.antt =====
-- `os.environ`, which every service reads its configuration from when it starts.
use agent_identity_demos.Prelude.{String, Option, none, some}

abbrev pub Environ : Type 0
Environ = String → Option String

-- `os.environ.get(k, default)`
unfoldable pub get_env : Environ → String → String → String
get_env env k d = elim (env k) [ none ↦ d | some v ↦ v ]
