-- ===== src/Provenance/Reachable.antt =====
-- `reachable` decides whether a walk leads from one node to another, and its loop ends.
mod Search
pub use Search.{reachable_decides, reachable-Reach}
