-- ===== src/Access.antt =====
-- What the node answers to whom: the redaction of secrets, the check of the shared secret, and the
-- choice of ports.
pub mod Redaction
pub mod Security
pub mod FreePort
pub mod Passthrough
mod Examples
