-- ===== src/Multinode.antt =====
-- services/node-agent/src/greencompute_node_agent/domain/multinode_launch.py: one node's share of a
-- model that is served across several boxes.
pub mod Payload
pub mod Params
pub mod Topology
pub mod Parsing
pub mod Options
pub mod Commands
pub mod Flags
mod Examples
