-- ===== src/Provenance/Acyclic.antt =====
-- `validate_acyclic` against walks: what it accepts has no cycle, and with a recursion limit above
-- the number of nodes it accepts every graph that has none.
mod Accepts
mod Verdict
pub use Accepts.{validate_acyclic_sound}
pub use Verdict.{cycle_error, validate_acyclic_decides}
