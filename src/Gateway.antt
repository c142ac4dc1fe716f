-- ===== src/Gateway.antt =====
-- cross-domain-id-jag-vc/gitea-gateway/app.py: the gateway in front of Gitea. `Config` holds what
-- the module reads from its environment, `Token` the token checks that FastAPI runs before a
-- handler, `Policy` the guards that handlers call, and `Routes` the handlers. `Checks`, `Verified` and
-- `Authorised` are about them, and `Tests` runs them.
pub mod Config
pub mod Token
pub mod Policy
pub mod Routes
pub mod Checks
pub mod Verified
pub mod Authorised
pub mod Tests
