-- ===== src/SubAgent.antt =====
-- cross-domain-id-jag-vc/sub-agent/app.py: the agent at the end of the delegation chain. `Badge`
-- verifies the assertion that it is spawned with, `Steps` holds the steps that stand alone,
-- `Sender` checks the delegating agent's credential, `Resource` calls the gateway, and `Run` is the
-- handler that drives them. `Accepts` is about the verification,
-- `Contained` about what leaves a run, and `Ended` about phases that never raise.
pub mod Badge
pub mod Steps
pub mod Sender
pub mod Resource
pub mod Run
pub mod Accepts
pub mod Agrees
pub mod Order
pub mod Calls
pub mod Contained
pub mod Ended
pub mod Tests
