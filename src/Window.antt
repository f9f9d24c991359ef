-- ===== src/Window.antt =====
-- src/window/Window.cpp.
pub mod Keys
pub mod Events
mod Numbers
pub mod State
