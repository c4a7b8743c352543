-- ===== src/Sample.antt =====
-- Concrete functions in the place of the outside packages: they show that what is assumed of those
-- can hold, and the theorems are applied to them.
pub mod Fields
pub mod Crypto
pub mod Memory
pub mod Paths
pub mod Replicas
pub mod Node
pub mod Addresses
pub mod Air
pub mod Machine
