-- ===== src/Request.antt =====
-- internal/request: who makes a request, and on whose behalf.
pub mod World
pub mod Impersonation
pub mod Xfcc
pub mod Quoting
pub mod Http
pub mod Reviews
pub mod Providers
