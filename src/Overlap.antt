-- ===== src/Overlap.antt =====
-- Runs of the four handlers that overlap: while one runs, the others do.
pub mod Busy
pub mod Safety
