-- ===== src/Crdt.antt =====
-- The Go package crdt: stores over a replicated, append-only datastore.
pub mod Filters
pub mod Address
pub mod Base
pub mod Crypto
pub mod Options
pub mod Hash
pub mod Signature
pub mod Updatable
pub mod UpdatableSignature
pub mod Access
pub mod Setup
pub mod TimeParams
pub mod Verse
pub mod Opening
pub mod Making
pub mod Replication
