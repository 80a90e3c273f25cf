-- ===== src/Comm.antt =====
-- The communication layer of src/comm.
pub mod Msg
pub mod Data
pub mod Routes
pub mod Sock
pub mod Channel
pub mod Ioman
pub mod Delivery
