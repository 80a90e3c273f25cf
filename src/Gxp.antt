-- ===== src/Gxp.antt =====
-- The use of the routers by src/gxp.
pub mod Returns
pub mod Router
pub mod Safety
pub mod Sound
