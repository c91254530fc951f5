-- ===== src/Response.antt =====
-- mcstatus/responses: the objects that a status or a query returns.
pub mod Forge
pub mod Strings
pub mod Status
pub mod Query
pub mod Bedrock
pub mod Legacy
