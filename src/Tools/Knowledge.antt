-- ===== src/Tools/Knowledge.antt =====
-- The knowledge graph tool of pkg/tools/knowledge_graph.go.
pub mod Graph
pub mod Changes
pub mod Search
pub mod Marks
pub mod Neighbours
pub mod Rounds
pub mod Measure
pub mod Shortest
pub mod Views
pub mod Paths
pub mod Store
pub mod Sound
pub mod Edges
pub mod Calls
pub mod Limit
