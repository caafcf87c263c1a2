-- ===== src/Web.antt =====
-- services/node-agent/src/greencompute_node_agent/transport/routes.py, with the methods of
-- application/services.py that only the routes call.
pub mod Wire
pub mod Access
pub mod Routes
pub mod Refusal
pub mod Shown
pub mod Exclusion
mod Examples
