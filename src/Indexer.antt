-- ===== src/Indexer.antt =====
-- packages/grc-explorer/src/services/indexer: the block indexer.
pub mod AdaptiveLimits
pub mod Backfill
pub mod BlockWriter
pub mod ChainReorg
pub mod Deltas
pub mod PhantomSpends
pub mod PrevOutputs
pub mod TipFollower
