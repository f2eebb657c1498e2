-- ===== src/Init.antt =====
-- sentinel-init/cmd/main.go: the init container that sets up the redirection of traffic.
pub mod Flags
pub mod Rules
pub mod Setup
pub mod Program
pub mod Table
pub mod Render
pub mod Traffic
