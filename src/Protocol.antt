-- ===== src/Protocol.antt =====
-- The messages on the wire between the browser and the server.
pub mod ClientMessages
pub mod ServerMessages
pub mod Parsing
pub mod Reading
mod Examples
