-- ===== src/Pods.antt =====
-- services/node-agent/src/greencompute_node_agent/domain/pod.py and vm.py: the backends that the
-- service starts, suspends, resumes and stops pods with.
pub mod Docker
pub mod Command
pub mod Process
pub mod Stub
pub mod Contract
pub mod Refinement
pub mod Suspension
pub mod Waiting
pub mod Examples
