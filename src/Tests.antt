-- ===== src/Tests.antt =====
-- Runs of the model on concrete data, and the theorems applied to it.
mod Keys
mod Stores
mod Versions
mod Access
mod Topic
mod Replicas
mod Dated
mod Delivery
mod Forged
mod Files
mod Nodes
mod Boot
mod Timed
mod Rounds
mod Rooms
mod Loads
mod Wraps
mod Grants
