-- ===== src/Models.antt =====
-- The text models of an artifact's manifest:
-- services/node-agent/src/greencompute_node_agent/domain/model_backend.py, and the streams that
-- domain/inference.py and runtime_server.py make of their texts.
pub mod Corpus
pub mod Graph
pub mod Generate
pub mod Built
pub mod Walk
pub mod Create
pub mod Creation
pub mod Events
pub mod Streaming
mod Examples
