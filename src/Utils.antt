-- ===== src/Utils.antt =====
-- data-plane/internal/utils: claims and SPIFFE ids, host addresses, the original destination of a
-- redirected connection, and service account tokens.
pub mod Claims
pub mod HostAddress
pub mod OriginalDest
pub mod Tokens
