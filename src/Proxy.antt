-- ===== src/Proxy.antt =====
-- data-plane/internal/proxy/proxy.go. `Proxy.Defs` has the proxy's state and what a handler does as a
-- trace of events; the other modules model its functions, and their children prove their laws.
pub mod Defs
pub mod Identity
pub mod Http
pub mod Forward
pub mod TProxy
pub mod Handler
pub mod Boot
pub mod Modes
pub mod Copy
pub mod Outbound
pub mod Mesh
