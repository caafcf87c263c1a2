-- ===== src/Inference.antt =====
-- services/node-agent/src/greencompute_node_agent/domain/inference.py: the backend that runs a model
-- in a docker container, and the choice of its image.
pub mod Image
pub mod Choice
pub mod Command
pub mod Ranks
pub mod Launch
pub mod Seen
pub mod Started
pub mod Cleanup
pub mod FailedStart
pub mod Store
pub mod Eviction
pub mod Fallback
mod Examples
