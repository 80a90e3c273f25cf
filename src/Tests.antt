-- ===== src/Tests.antt =====
-- Runs of the code on small inputs, and the theorems at such inputs.
pub mod Graph
pub mod Comm
pub mod Std
pub mod Gxp
pub mod Struct
pub mod Trees
pub mod Routes
pub mod Vectors
pub mod Channels
pub mod Iomans
pub mod Deques
pub mod Deliveries
