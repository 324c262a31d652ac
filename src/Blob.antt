-- ===== src/Blob.antt =====
-- protocols/owlnest-blob: file transfer between two peers. `Types` and `State` hold the data,
-- `Send` and `Recv` the two halves of the behaviour, `Behaviour` its entry points.
pub mod Types
pub mod State
pub mod Send
pub mod Recv
pub mod Behaviour
pub mod Cases
pub mod Invariant
pub mod Cancel
pub mod Panics
pub mod Disconnect
pub mod Expiry
pub mod Transfer
pub mod Wire
pub mod Handler
pub mod Front
pub mod Examples
