-- ===== src/Lib.antt =====
-- A model of capsule-proxy, a proxy in front of a Kubernetes API server that lets the owners of
-- Capsule tenants list and read cluster-scoped objects. A request is authenticated and its
-- impersonation headers are reviewed, the tenants and rules of the identity are collected, and a
-- module turns them into a label selector; the request then goes on with the proxy's token and the
-- selector, or in the name of the identity where no module answers.
--
-- The parts, by file:
--   Prelude: lists, maps and results that the other files share.
--   Go: the functions of Go's standard library that the logic rests on.
--   Errors: internal/request/error.go, internal/modules/errors and internal/webserver/errors.
--   Request: internal/request. Http is http.go (resolve_user_and_groups is ResolveUserAndGroups),
--     Impersonation is impersonation.go, Xfcc is xfcc.go; Reviews,
--     Providers and Quoting hold the theorems.
--   Labels: selectors, as far as they are called, with the laws that are used.
--   Tenant: internal/tenant. Filter: getTenantsForOwner of internal/webserver/webserver.go, and
--     internal/indexer (Indexes); Parts, Added, Rules, Collected and Complete hold the theorems.
--   Cluster: api/v1beta1/clusterresoure.go and internal/modules/clusterscoped/utils.go.
--   Modules: internal/modules/utils, clusterscoped, namespace, tenants, node, metric, namespaced and
--     persistentvolume (Volumes). Classes and ClassHandlers are storageclass, priorityclass,
--     ingressclass and runtimeclass; the first three share one body, which is a definition with the
--     kind and the field of the tenant as arguments. ExactClasses, ClassAccess, NamedClasses and
--     ListedClasses hold the theorems. Selecting, Matching, ClusterAccess, Named, NamespaceAccess and
--     NodeNames hold those of the other modules.
--   Validation: internal/runtime/validation/cluster_resource.go.
--   Web: internal/webserver/webserver.go and internal/webserver/middleware. Routes holds the chain of
--     a module's route, Forward what is passed on, Token the proxy's own token, SelfReviews what is
--     answered to self reviews (authorizationMiddleware), Opened the whole way of a GET; Discovery is
--     internal/webserver/utils.go, internal/utils/gvk.go and the modules that registerModules lists.
--     Deleted, Headers, Withheld, Sound, Safety, Sanitized, Answers, Certificates, Paths and Registered
--     hold theorems.
--   Options: main.go and internal/options, and in StartUp NewKubeFilter; Trusted and Served hold the
--     theorems. Controllers: internal/controllers/proxy_setting.go, global_proxy_settings.go and
--     capsule_configuration.go; Observed holds what client-go and the API server promise.
--   Gate: internal/webserver/namespacegate, with theorems in Naming and Masking.
--   Authorization: internal/authorization/middleware.go, with theorems in Reviews.
--   RoleBindings: internal/controllers/role_bindings.go. Runs has the interleavings of requests and
--     events as steps, Settling how they end; Roles says what a role allows, Namespaces what is looked
--     up by it.
--   Examples: the theorems at concrete inputs.
--
-- Code that is only called, such as the API server, certificates, regexp and the labels library,
-- is a parameter: Request.World, Labels.LabelApi, RoleBindings.Lookup.Reader, Filter.Manager,
-- Options.Libraries, Controllers.Api and Gate.GateApi. A function that returns a value and an
-- error is one with a result; a panic is an error of its own. A set or a map is a list in one of
-- the orders that Go allows. Every loop is structural recursion on what it walks, but for the
-- binary search of Go.Searching, which has the length of its list as fuel and is shown to end
-- within it. `SliceStable` sorts up to twenty elements by insertion; how it merges the blocks of a
-- longer slice is a parameter that keeps the elements. The generation of the reflector wraps
-- around at 2 ^ 64, and the theorem on it is about fewer events than that.
--
-- Not modelled: the manager, its probes and leader election, logging and metrics, how controllers
-- are registered with the manager, how the router chooses among the routes, and the reading and
-- writing of bodies, whose decoder and encoders are parameters.
pub mod Prelude
pub mod Go
pub mod Errors
pub mod Request
pub mod Labels
pub mod Cluster
pub mod Tenant
pub mod Web
pub mod RoleBindings
pub mod Modules
pub mod Gate
pub mod Authorization
pub mod Filter
pub mod Validation
pub mod Options
pub mod Controllers
pub mod Examples
