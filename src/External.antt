-- ===== src/External.antt =====
-- What the store code uses of packages outside the repository, as one record of functions, and the
-- generated protobuf messages that cross those functions.
pub mod Messages
pub mod Crypto
pub mod Datastore
pub mod Ipfs
pub mod Addresses
pub mod Network
pub mod Gossip
pub mod Setup
