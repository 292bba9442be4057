-- ===== src/Builder.antt =====
-- crates/mev-core/src/bundle: key_manager.rs, signer.rs and builder.rs, from a private key to a bundle
-- of signed transactions.
pub mod Keys
pub mod Types
pub mod Signer
pub mod Target
pub mod Defs
mod Wallets
mod Reload
mod Format
mod Nonces
mod Readable
mod Bundles
mod Burned
mod Tests
