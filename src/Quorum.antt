-- ===== src/Quorum.antt =====
-- internal/quorum: the signatures of the providers on a response, and the settings of a quorum request.
pub mod Bytes
pub mod Headers
pub mod Verify
pub mod Params
pub mod Keys
mod Tests
