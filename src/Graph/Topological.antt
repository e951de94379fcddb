-- ===== src/Graph/Topological.antt =====
-- `TopologicalSort`: in-degrees, and what the sorted order says about the graph.
pub mod Degrees
pub mod Order
