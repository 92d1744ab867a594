-- ===== src/FbShell.antt =====
-- src/fbshell.cpp: `FbShell`, a shell that is shown on the frame buffer.
pub mod Palette
pub mod State
pub mod Cursor
pub mod Modes
pub mod Codec
pub mod Input
pub mod Handle
pub mod Colors
mod Tests
