-- ===== src/Modules.antt =====
-- internal/modules: how a handler of the proxy turns what a subject is granted into a selector.
pub mod Gvk
pub mod Selector
pub mod Selecting
pub mod ClusterScoped
pub mod Matching
pub mod Named
pub mod ClusterAccess
pub mod Nodes
pub mod NodeNames
pub mod Namespaces
pub mod Namespaced
pub mod NamespaceAccess
pub mod Classes
pub mod ClassHandlers
pub mod Volumes
pub mod ExactClasses
pub mod ClassAccess
pub mod NamedClasses
pub mod ListedClasses
pub mod Metrics
