-- ===== src/NodeInit.antt =====
-- cross-domain-id-jag-vc/identity-node-init.py: the script that registers the signing keys of the
-- organisations at the Identity Node. `Setup` has its configuration, its requests and the waits,
-- `Keys` the keys of Vault, `Register` the registration and `main`, and `Registered` is about what
-- a run that ends well has done.
pub mod Setup
pub mod Keys
pub mod Register
pub mod Waits
pub mod Registered
pub mod Tests
