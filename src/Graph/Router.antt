-- ===== src/Graph/Router.antt =====
-- src/graph/router.c: the levels of the links, from which the search makes paths.
pub mod Updown
pub mod Bfs
pub mod Orient
pub mod Deadlock
pub mod Reach
pub mod Dfs
pub mod Trees
pub mod Choose
pub mod Levels
