-- ===== src/App.antt =====
-- src/app.cpp, src/main.cpp, src/options.cpp and src/renderer.cpp: the program around the emulator.
pub mod Options
pub mod Calls
pub mod Renderer
pub mod State
pub mod Start
pub mod Callbacks
pub mod Keys
pub mod Memory
pub mod Ticks
pub mod Started
pub mod Frames
pub mod Contained
pub mod Session
