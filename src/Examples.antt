-- ===== src/Examples.antt =====
-- The theorems at concrete inputs.
pub mod Sample
pub mod Requests
pub mod Cluster
pub mod Access
pub mod Handlers
pub mod Rules
pub mod Nodes
pub mod Classes
pub mod Routing
pub mod Stores
pub mod SelfReviews
pub mod Whole
pub mod StartUp
pub mod Statuses
