-- ===== src/Algorithm.antt =====
-- The headers of algorithm/: searches, sorts and the binary search tree.
pub mod Descending
pub mod Search
pub mod Sort
pub mod Tree
