-- ===== src/Std.antt =====
-- The data structures of src/std.
pub mod Bytes
pub mod HashMap
pub mod UnionSet
pub mod Vector
pub mod Deque
