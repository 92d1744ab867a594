-- ===== src/ImProxy.antt =====
-- src/improxy.cpp: `ImProxy`, by which an input method draws its windows.
pub mod Rectangles
pub mod Text
pub mod Windows
pub mod Messages
mod Tests
