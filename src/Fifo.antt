-- ===== src/Fifo.antt =====
-- task3/FIFO: a file is sent over a named pipe in messages of one length byte and up to 127 bytes.
-- `Message` holds what both headers declare, `Server` and `Client` the two programs, `System`
-- the two processes side by side, and `Session` both from their start on.
pub mod Message
pub mod Server
pub mod Client
pub mod System
pub mod Handshake
pub mod Session
pub mod Tests
