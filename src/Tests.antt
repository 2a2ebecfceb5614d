-- ===== src/Tests.antt =====
-- A chain of two blocks and a daemon that has left it, and the theorems at runs on them.
mod Sample
mod Run
mod Chain
mod Writes
mod Texts
mod System
mod Turns
mod Retry
mod Probe
mod Drain
mod Client
mod Api
