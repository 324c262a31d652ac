-- ===== src/Blob/Transfer.antt =====
-- A whole file through the behaviours of both ends: what is read, sent, received and written.
pub mod Sending
pub mod Writing
pub mod Receiving
pub mod EndToEnd
