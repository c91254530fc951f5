-- ===== src/Tests.antt =====
-- The theorems at concrete inputs.
mod Wire
mod Message
mod Network
pub mod World
pub mod Server
mod Terminal
mod Session
mod Forge
