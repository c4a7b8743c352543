-- ===== src/Ipfs.antt =====
-- ipfs/ipfsverse.go: files in blocks on an IPFS node.
pub mod Blocks
pub mod Store
pub mod RoundTrip
pub mod CidGetter
pub mod Opening
