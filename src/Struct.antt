-- ===== src/Struct.antt =====
-- The routing tables of src/struct.
pub mod Rtable
