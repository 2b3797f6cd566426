-- ===== src/Py.antt =====
-- The parts of Python's data model that the plugins use.
pub mod Dict
pub mod Exec
pub mod Value
pub mod Text
