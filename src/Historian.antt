-- ===== src/Historian.antt =====
-- Src/adapters/ring_historian: a fixed-capacity ring of samples that overwrites the oldest. The
-- mutex is held over each whole method, so a method is one step. `metrics` is what has been added
-- to the counter "historian.dropped", if a metrics port is wired. A sample is of any type.
pub mod Ring
