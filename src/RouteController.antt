-- ===== src/RouteController.antt =====
-- The listeners that the reconciler of HTTPRoutes keeps on a Gateway:
-- internal/controller/httproute_controller.go.
pub mod Allowed
pub mod Listeners
pub mod Wanted
pub mod Kept
pub mod Admitted
pub mod Found
pub mod Settled
use ingress_operator.Prelude.{
  Bool, true, false, not, ◌&&◌, ◌||◌, Option, none, some, List, [], ◌∷◌, ◌++◌, ◌==◌, if◌then◌else◌,
  contains, keep, is_empty, some_of,
}
use ingress_operator.Text.{Text, codes, text_eq}
use ingress_operator.Dict.{Dict, keys, lookup, insert, MapOrder}
use ingress_operator.Kube.{
  Listener, Selector, Requirement, SecretRef, HttpRoute, ParentRef, Gateway, match_in, Ingress,
}
use ingress_operator.Selectors.{name_label}
use ingress_operator.Values.{contains_string}
use ingress_operator.Client.{Answer, ok, err}
use ingress_operator.Translator.{managed_by_annotation, managed_by_value, qualified}
use ingress_operator.Translator.Gateway.Shared.{sort_strings}

-- getGatewayNameFromHTTPRoute, for the parents that are left. A parent without a namespace has that
-- of the route.
unfoldable pub get_gateway_name : Text → Text → List ParentRef → Text
get_gateway_name gateway_namespace route_namespace [] = []
get_gateway_name gateway_namespace route_namespace (parent ∷ parents) =
    let rest = get_gateway_name gateway_namespace route_namespace parents in
    let namespace = if parent.namespace == [] then route_namespace else parent.namespace in
    if namespace == gateway_namespace then parent.name else rest

-- listHTTPRoutesForGateway
unfoldable pub list_http_routes_for_gateway :
    Answer (List HttpRoute) → Text → Text → Text → Answer (List HttpRoute)
list_http_routes_for_gateway (err e) gateway_namespace gateway_name exclude_key = err e
list_http_routes_for_gateway (ok items) gateway_namespace gateway_name exclude_key = ok (
    keep
      (λ (route : HttpRoute).
        not route.deleting
        && not (not (exclude_key == []) && qualified route.namespace route.name == exclude_key)
        && get_gateway_name gateway_namespace route.namespace route.parent_refs == gateway_name)
      items)

-- createInitialGateway
unfoldable pub create_initial_gateway : Text → Text → Text → Gateway
create_initial_gateway gateway_namespace gateway_class_name gateway_name = record {
  namespace = gateway_namespace;
  name = gateway_name;
  annotations = (managed_by_annotation, managed_by_value) ∷ [];
  gateway_class_name = if gateway_class_name == [] then codes "nginx" else gateway_class_name;
  infrastructure = none;
  listeners = [];
}

unfoldable pub known_namespaces : Option (Dict Bool) → Dict Bool
known_namespaces none = []
known_namespaces (some namespaces) = namespaces

-- The hostnames of a route, in the loop of calculateDesiredListenerState.
unfoldable pub add_hostnames : Text → List Text → Dict (Dict Bool) → Dict (Dict Bool)
unfolding known_namespaces
add_hostnames namespace [] state = state
add_hostnames namespace (hostname ∷ hostnames) state =
    add_hostnames namespace hostnames
      (insert hostname (insert namespace true (known_namespaces (lookup hostname state))) state)

-- calculateDesiredListenerState, with the state that is filled: for each hostname the set of
-- namespaces.
unfoldable pub desired_state_from : List HttpRoute → Dict (Dict Bool) → Dict (Dict Bool)
unfolding add_hostnames
desired_state_from [] state = state
desired_state_from (route ∷ routes) state =
    desired_state_from routes (add_hostnames route.namespace route.hostnames state)

unfoldable pub calculate_desired_listener_state : List HttpRoute → Dict (Dict Bool)
calculate_desired_listener_state routes = desired_state_from routes []
