-- ===== src/Triage.antt =====
-- cross-domain-id-jag-vc/triage-agent/app.py: the agent that receives a ticket across the domains.
-- `Ticket` verifies the assertion that comes with it, and `Accepts` is about that verification.
pub mod Ticket
pub mod Sender
pub mod Steps
pub mod Delegate
pub mod Receive
pub mod Accepts
pub mod Agrees
pub mod Order
pub mod Contained
pub mod Tests
