-- ===== src/Application.antt =====
-- The life of an application: src/daemon/application/Application.h and .cpp, AppBehavior.h and .cpp,
-- and the table of timers in src/daemon/TimerHandler.cpp as far as it holds an application's timers.
-- Locks, logging, metrics and the text of the last error are left out.
pub mod State
pub mod Actions
pub mod Frames
pub mod Stop
pub mod Launch
pub mod Lifetime
pub mod Behavior
pub mod Exits
mod Examples
mod ExitExamples
