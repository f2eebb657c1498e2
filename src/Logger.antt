-- ===== src/Logger.antt =====
-- data-plane/internal/logger and its copy sentinel-init/internal/logger: the queue in front of the log
-- output, the attributes that a context adds to a record, and the HTTP middleware.
pub mod Async
pub mod Context
pub mod Middleware
