-- ===== src/Client.antt =====
-- cross-domain-id-jag-vc/agntcy_identity_client: the client of Vault and of the Identity Node that
-- the agents share. `Der` reads a public key, `Vault` signs, `Cimd` registers identifiers, `Vc`
-- issues credentials, and `Directory` keeps records. `Contained` is about where the requests go.
pub mod Der
pub mod Vault
pub mod Cimd
pub mod Vc
pub mod Directory
pub mod Contained
pub mod Tests
