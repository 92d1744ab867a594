-- ===== src/Io.antt =====
-- src/lib/io.cpp: `IoPipe`, the bytes between a program and its terminal.
pub mod Write
pub mod Translate
mod Tests
