-- ===== src/PubSub.antt =====
-- pubsub/pubsub.go: rooms where the subscribers of a topic publish and receive messages.
pub mod Messages
pub mod Node
pub mod Room
pub mod Resets
pub mod Sorting
pub mod Received
pub mod Sharing
pub mod Exchange
