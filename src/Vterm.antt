-- ===== src/Vterm.antt =====
-- The terminal emulator, src/lib/vterm.h, vterm.cpp, vterm_action.cpp and vterm_states.cpp.
pub mod Types
pub mod State
pub mod Area
pub mod Draw
pub mod Scroll
pub mod Cursor
pub mod Edit
pub mod Modes
pub mod Sequences
pub mod Resize
pub mod Decode
pub mod Input
pub mod Inverse
pub mod Fits
pub mod Sample
mod Tests
