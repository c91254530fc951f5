-- ===== src/Async.antt =====
-- The asynchronous half of mcstatus: the same parts under `await`.
pub mod Task
pub mod Writer
pub mod Reader
pub mod Client
pub mod Connection
pub mod Net
pub mod Server
