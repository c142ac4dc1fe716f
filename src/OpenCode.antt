-- ===== src/OpenCode.antt =====
-- cross-domain-id-jag-vc/opencode-agent/app.py: the agent of Org A that Sarah delegates to. `Config`
-- is its configuration, `Finding` reads the reply of the model, `Model` asks it, `Tokens` holds the
-- exchanges and the policy checks, `Steps` the registration and the Directory, `Ticket` the ticket
-- for Org B, `Run` the task as a whole, and `Stream` the relay of the model's events.
pub mod Config
pub mod Finding
pub mod Model
pub mod Scan
pub mod Tokens
pub mod Steps
pub mod Ticket
pub mod Run
pub mod Stream
pub mod Order
pub mod Returns
pub mod Found
pub mod Tests
