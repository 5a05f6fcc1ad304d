-- ===== src/Lib.antt =====
-- A verification library for the ingress operator: the parts that turn Ingress objects into
-- Gateways, HTTPRoutes and ReferenceGrants and keep these objects apart from what others made, the
-- decisions of the reconciler of ingresses, and the program that undoes its changes.
--
-- The program's parts and their files:
--   Values             lists of values in one text: internal/utils/strings.go (ParseCommaSeparatedList),
--                      internal/utils/slice.go, splitSources of internal/utils/resource.go, and the
--                      merging of such texts in internal/translator/gateway_utils.go
--                      (MergeAnnotationValues, MergeCertificateMismatchAnnotation,
--                      RemoveCertMismatchEntries) and translator.go (deduplicateAndJoin)
--   Resource           internal/utils/resource.go: IsManagedByUs and its variants for an ingress, and
--                      CanUpdateResource
--   Translator         internal/translator/translator.go: Config and the annotation names, with
--     Hostname           TransformHostname, CheckCertificateMatch, generateSafeSecretName
--     Annotations        FilterAnnotations, GetIngressClass, the annotations by ingress class, and
--                        the parser of their flag in internal/translator/annotations_by_class.go
--     Headers            the header modifier filters
--     Canary             internal/translator/canary.go: the canary ingresses of ingress-nginx
--     Gateway            TranslateToGateway, and TranslateMultipleToSharedGateway in Gateway/Shared
--     Route              TranslateToHTTPRoute, TranslateToHTTPRouteWithCanaries
--   GatewayUtils       internal/translator/gateway_utils.go: MergeGatewaySpec, RemoveIngressListeners
--   ReferenceGrant     internal/utils/referencegrant.go: EnsureReferenceGrants, ApplyReferenceGrant,
--                      CleanupReferenceGrantIfNeeded; GetNamespacesWithTLS, CreateReferenceGrant
--   ReconcileCache     internal/utils/reconcile_cache.go: the sharded cache of reconciled versions
--   HttpRoutes         internal/utils/httproute.go: SplitHTTPRouteIfNeeded, ApplyHTTPRoutesAtomic,
--                      ResolveNamedPorts
--   Controller         internal/controller/ingress_controller.go: the configuration and the classes, with
--     Memory             the versions that are remembered and evicted, the ingresses deleted by itself
--     Skip               shouldSkipIngress, shouldIncludeIngressForSynthesis, the head of Reconcile
--     Siblings           canaries and primaries, conflicts of server directives
--     Canaries           reconcileCanaryPrimaries, which reconciles the primaries of a canary
--     Disable            disableIngress, disableExternalDNS, removeIngress
--   RouteController    internal/controller/httproute_controller.go: the listeners that the reconciler of
--                      HTTPRoutes keeps on a Gateway, with
--     Allowed            the namespaces and the TLS of one listener
--     Listeners          reconcileListenersToDesiredState
--   Webhook            internal/webhook/ingress_webhook.go: the class filters and the response of Handle
--   Selectors          which namespaces the selector of a listener admits
--   Reenabler          cmd/reenabler/main.go: the restoring and the deletion of disabled ingresses
-- The controllers translate each ingress with Translator, merge the result into the Gateway that
-- exists with GatewayUtils, and keep the grants of its secrets with ReferenceGrant; Resource decides
-- which objects they may write. The reconciler asks Controller.Skip about each ingress, translates
-- it with its siblings' canaries, hands the route to HttpRoutes, and then disables or removes the
-- source; the re-enabler restores it. The reconciler of HTTPRoutes keeps the listeners of the Gateway
-- with RouteController. The child modules, named for what they prove, hold the theorems.
-- Prelude, Text, Dict, Number and Kube hold what the parts share: Go's strings as lists of
-- code points, maps as association lists, integers and the fields of the Kubernetes objects. Tests
-- holds runs at concrete inputs.
--
-- How the code is read:
--   - An operation that changes an object gives the new object. An operation on the cluster takes a
--     state and a client, and gives the new state with its error, if there is one.
--   - The order in which Go ranges over a map is an argument (Dict.MapOrder), where the result
--     depends on it.
--   - Parameters: the Kubernetes API is Client.Client, whose laws are Client.IsLawful; the list of a
--     namespace's ingresses, the read of an HTTPRoute and SetControllerReference are arguments of
--     ReferenceGrant; lists of objects and the reads of Services are arguments of HttpRoutes,
--     Controller and Reenabler; filepath.Match is an argument `glob`; the clock is an argument; so are the
--     error of a translation in Webhook, and reconcileIngressToHTTPRoute, which is not modelled as a
--     whole, in Controller.Canaries.
--   - Logging and events are left out. The mutexes are, too: an operation on what the reconciler
--     remembers is one step.
--
-- Bounds: the weights of a canary are int32 and the times of the cache int64, by the cutoffs of
-- their parser; the weights are subtracted modulo 2 ^ 32; the hash of the cache is in uint32. The
-- shard count of the cache is below 2 ^ 32: the program uses 16. The fuel of the decimal
-- print is the number itself and one more, that of the split of a route the number of its rules; the
-- attempts of a retried update are the three of the program. Texts are of valid UTF-8; to_lower is that of
-- ASCII, and lengths are those of ASCII texts, as the names and hostnames of Kubernetes are. Ports
-- and weights that the API server would refuse are not modelled.
--
-- Not modelled: of the reconciler of ingresses the translation of one ingress as a whole with its
-- extension filters, the deletion of derived objects and the watches; of the re-enabler the
-- annotations and the removal of derived objects; of the reconciler of HTTPRoutes the TLS of the
-- listeners, the grants, the attempts and the debouncer; what the webhook writes to the cluster,
-- which does not change its response; the snippets filters but for the server directives
-- (internal/utils/snippets.go), the metrics, the operator and webhook programs under cmd, and
-- translateWithIngress2Gateway, which hands the translation to a
-- third-party library.
pub mod Prelude
pub mod Text
pub mod Dict
pub mod Values
pub mod Number
pub mod Kube
pub mod Selectors
pub mod Translator
pub mod GatewayUtils
pub mod Resource
pub mod Client
pub mod ReferenceGrant
pub mod ReconcileCache
pub mod HttpRoutes
pub mod Controller
pub mod Reenabler
pub mod RouteController
pub mod Webhook
mod Tests
