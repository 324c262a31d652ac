-- ===== src/Blob/Invariant.antt =====
-- What holds of the behaviour of protocols/owlnest-blob after any inputs.
pub mod Sends
pub mod Recvs
pub mod Formed
pub mod SendOps
pub mod RecvOps
pub mod Steps
