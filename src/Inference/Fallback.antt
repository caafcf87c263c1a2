-- ===== src/Inference/Fallback.antt =====
-- ProcessInferenceBackend, which runs a model in a process of its own, and its fallback, of
-- services/node-agent/src/greencompute_node_agent/domain/inference.py.
pub mod Machine
pub mod Local
pub mod Process
pub mod Leak
pub mod Timeout
mod Tests
