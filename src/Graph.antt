-- ===== src/Graph.antt =====
-- The overlay graph and the computation of routes of src/graph.
pub mod Weight
pub mod Link
pub mod Dijkstra
pub mod Route
pub mod Deadlock
pub mod Router
pub mod Overlay
