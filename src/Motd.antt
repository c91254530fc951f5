-- ===== src/Motd.antt =====
-- mcstatus/motd: messages of the day, parsed, simplified and rendered.
pub mod Components
pub mod Web
pub mod Colors
pub mod Parse
pub mod Simplify
pub mod Squash
pub mod Transform
