-- ===== src/Io.antt =====
-- mcstatus/_protocol/io: the wire formats and the in-memory buffer.
pub mod Twos
pub mod Struct
pub mod Text
pub mod Writer
pub mod Reader
pub mod Buffer
pub mod Connection
