-- ===== src/Response/Forge.antt =====
-- mcstatus/responses/forge.py: the mod data of a Forge server.
pub mod Optimized
pub mod Powers
pub mod Characters
pub mod Base32768
pub mod Decode
pub mod Laws
pub mod Follows
pub mod Wire
pub mod Header
pub mod Truncated
