-- ===== src/Search.antt =====
-- Hybrid retrieval: src/dikw_core/domains/info/search.py.
pub mod Scores
pub mod Fusion
pub mod Keys
pub mod Consensus
pub mod Diversity
pub mod Window
pub mod Seeds
pub mod Reranking
pub mod Searcher
pub mod Query
pub mod Hits
pub mod LegKeys
pub mod Answers
pub mod Degraded
pub mod QueryTests
pub mod Tests
