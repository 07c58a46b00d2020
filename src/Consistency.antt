-- ===== src/Consistency.antt =====
-- internal/consistency: vector clocks and quorum parameters.
pub mod VectorClock
pub mod Quorum
