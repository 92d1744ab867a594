-- ===== src/Screen.antt =====
-- src/screen.cpp: `Screen`, which turns characters and rectangles into rows of pixels.
pub mod Palette
pub mod Rotate
pub mod Fill
pub mod Text
pub mod Move
mod Tests
