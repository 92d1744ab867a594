-- ===== src/Shell.antt =====
-- The shell that owns a terminal: src/lib/shell.cpp.
pub mod Text
pub mod Select
pub mod Mouse
mod Tests
