-- ===== src/Webapp.antt =====
-- cross-domain-id-jag-vc/webapp/app.py: the backend of the page that shows a run. `Config` is its
-- configuration, `Run`, `Keys` and `Agents` its handlers that ask other services, and `Listed` and
-- `Shown` are about what they answer.
pub mod Config
pub mod Run
pub mod Keys
pub mod Agents
pub mod Listed
pub mod Shown
pub mod Tests
