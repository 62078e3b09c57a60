-- ===== src/Web.antt =====
-- internal/webserver: how a request is checked, prepared and passed on to the API server.
pub mod Token
pub mod HopByHop
pub mod Forward
pub mod Middleware
pub mod Routes
pub mod Withheld
pub mod Sound
pub mod Safety
pub mod Deleted
pub mod Headers
pub mod Sanitized
pub mod Discovery
pub mod Paths
pub mod Registered
pub mod SelfReviews
pub mod Answers
pub mod Certificates
pub mod Opened
