-- ===== src/Blob/Cases.antt =====
-- Case rules for the operations of the behaviour: what holds of each way an operation can go holds
-- of its result.
mod Sends
mod Recvs
pub use Sends.*
pub use Recvs.*
