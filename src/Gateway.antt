-- ===== src/Gateway.antt =====
-- The parts together: what holds of polling and writing in a project that validate accepts.
pub mod Groups
mod Tests
