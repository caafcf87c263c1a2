-- ===== src/Agent.antt =====
-- services/node-agent/src/greencompute_node_agent/application/services.py: NodeAgentService.
pub mod Exec
pub mod Keeps
pub mod Host
pub mod Parts
pub mod Lifecycle
pub mod Ports
pub mod Prepare
pub mod Start
pub mod Pod
pub mod Resume
pub mod Reconcile
pub mod Cleanup
pub mod Recovery
pub mod Advertise
pub mod Kept
pub mod Safety
pub mod Teardown
pub mod Following
pub mod Outage
pub mod Restart
pub mod CpuPods
pub mod Probe
pub mod Unreachable
pub mod Silence
pub mod Exposed
pub mod Gives
pub mod HostPorts
pub mod Examples
