-- ===== src/Client.antt =====
-- mcstatus/_protocol: the clients of the protocols.
pub mod Java
pub mod Query
pub mod Legacy
pub mod Bedrock
pub mod Keeps
