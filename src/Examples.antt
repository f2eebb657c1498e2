-- ===== src/Examples.antt =====
-- The theorems at concrete inputs.
mod Data
mod Rotation
mod Locks
mod Outbound
mod Traffic
mod Logs
mod Identity
mod Startup
mod Copies
mod Serving
mod Programs
