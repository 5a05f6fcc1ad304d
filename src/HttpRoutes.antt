-- ===== src/HttpRoutes.antt =====
-- The HTTPRoutes of an ingress in the cluster: internal/utils/httproute.go. A route is split where
-- it has too many rules, its named ports are resolved, and its parts are written.
pub mod Split
pub mod Ports
pub mod Kept
pub mod Apply
pub mod Stored
use ingress_operator.Prelude.{
  ℕ, zero, suc, ◌+◌, Bool, true, false, ◌&&◌, Option, none, some, List, [], ◌∷◌, ◌++◌, map, ◌==◌,
  nat_eq, leb, if◌then◌else◌, keep, length, take, drop,
}
use ingress_operator.Text.{Text, codes, text_eq, has_prefix}
use ingress_operator.Number.{format_int, pos}
use ingress_operator.Kube.{
  Ingress, IngressRule, HttpIngressPath, HttpRoute, RouteRule, BackendRef, Service, ServicePort,
}
use ingress_operator.Client.{
  ApiError, not_found, other, Failure, plain, wrapped, Answer, ok, err, Client, Outcome, done,
  fails, written,
}
use ingress_operator.Resource.{is_managed_by_us_for_ingress, can_update_resource}

abbrev pub max_http_route_rules : ℕ
max_http_route_rules = 16

-- The part of a route with some of its rules. The first part keeps the name.
unfoldable pub part : HttpRoute → ℕ → List RouteRule → HttpRoute
part route n rules = record route {
  name = if leb n 1 then route.name else route.name ++ (codes "-" ++ format_int (pos n));
  rules = rules;
}

-- The loop over the rules that are left, 16 of them at a time. The fuel is enough if it is at
-- least the number of rules.
unfoldable pub parts : ℕ → HttpRoute → ℕ → List RouteRule → List HttpRoute
unfolding part
parts zero route n rules = []
parts (suc fuel) route n [] = []
parts (suc fuel) route n (r ∷ rules) =
    part route n (take max_http_route_rules (r ∷ rules))
    ∷ parts fuel route (suc n) (drop max_http_route_rules (r ∷ rules))

-- SplitHTTPRouteIfNeeded
unfoldable pub split_http_route_if_needed : HttpRoute → List HttpRoute
unfolding parts
split_http_route_if_needed route =
    if leb (length route.rules) max_http_route_rules
    then route ∷ []
    else parts (length route.rules) route 1 route.rules

-- The port name of the first of some paths whose backend is the service.
unfoldable pub port_name_in_paths : Text → List HttpIngressPath → Option Text
port_name_in_paths service_name [] = none
port_name_in_paths service_name (path ∷ paths) =
    let rest = port_name_in_paths service_name paths in
    elim path.service [
      | none ↦ rest
      | some service ↦ if service.name == service_name then some service.port_name else rest
    ]

or_else : Option Text → Option Text → Option Text
or_else none b = b
or_else (some a) b = some a

unfoldable pub port_name_in_rules : Text → List IngressRule → Option Text
unfolding port_name_in_paths or_else
port_name_in_rules service_name [] = none
port_name_in_rules service_name (rule ∷ rules) =
    let rest = port_name_in_rules service_name rules in
    elim rule.http [
      | none ↦ rest
      | some paths ↦ or_else (port_name_in_paths service_name paths) rest
    ]

unfoldable pub port_name_in_ingresses : List Ingress → Text → Option Text
unfolding port_name_in_rules or_else
port_name_in_ingresses [] service_name = none
port_name_in_ingresses (ingress ∷ ingresses) service_name =
    or_else (port_name_in_rules service_name ingress.rules)
      (port_name_in_ingresses ingresses service_name)

-- findPortNameInIngresses
unfoldable pub find_port_name_in_ingresses : List Ingress → Text → Text
find_port_name_in_ingresses ingresses service_name =
    elim (port_name_in_ingresses ingresses service_name) [ none ↦ [] | some name ↦ name ]

unfoldable pub port_named : Text → List ServicePort → Option ℕ
port_named port_name [] = none
port_named port_name (port ∷ ports) =
    let rest = port_named port_name ports in if port.name == port_name then some port.port else rest

abbrev pub fallback_port : ℕ
fallback_port = 80

-- Port 0 stands for a port with a name.
unfoldable pub is_placeholder : Option ℕ → Bool
is_placeholder none = false
is_placeholder (some port) = port == 0

module _ (get_service : Text → Text → Answer Service) where
  -- resolveServicePort: its errors are only logged.
  unfoldable pub resolve_service_port : Text → Text → Text → Option ℕ
  unfolding port_named
  resolve_service_port namespace service_name port_name =
      elim (get_service namespace service_name) [
        | err e ↦ none
        | ok service ↦ port_named port_name service.ports
      ]

  -- The port for a backend whose port has a name.
  unfoldable pub named_port : Text → List Ingress → Text → ℕ
  unfolding resolve_service_port find_port_name_in_ingresses
  named_port namespace sources service_name =
      let port_name = find_port_name_in_ingresses sources service_name in
      if port_name == []
      then fallback_port
      else elim (resolve_service_port namespace service_name port_name) [
        | none ↦ fallback_port
        | some port ↦ port
      ]

  unfoldable pub resolve_backend : Text → List Ingress → BackendRef → BackendRef
  unfolding named_port is_placeholder
  resolve_backend namespace sources ref =
      if is_placeholder ref.port
      then record ref { port = some (named_port namespace sources ref.name) }
      else ref

  resolve_rule : Text → List Ingress → RouteRule → RouteRule
  unfolding resolve_backend
  resolve_rule namespace sources rule = record rule {
    backend_refs = map (resolve_backend namespace sources) rule.backend_refs;
  }

  -- ResolveNamedPorts
  unfoldable pub resolve_named_ports : Ingress → HttpRoute → List Ingress → HttpRoute
  unfolding resolve_rule
  resolve_named_ports ingress route extra = record route {
    rules = map (resolve_rule ingress.namespace (ingress ∷ extra)) route.rules;
  }

module _ {State : Type 0} (routes : Client State HttpRoute)
    (list_routes : State → Text → Answer (List HttpRoute)) (has_metric : Bool) where
  unfoldable pub with_prefix : Text → Text → Answer (List HttpRoute) → Answer (List HttpRoute)
  with_prefix namespace prefix (err e) = err e
  with_prefix namespace prefix (ok items) = ok (
      keep
        (λ (r : HttpRoute).
          has_prefix r.name prefix && is_managed_by_us_for_ingress r.annotations namespace prefix)
        items)

  -- GetHTTPRoutesWithPrefix
  unfoldable pub get_http_routes_with_prefix : State → Text → Text → Answer (List HttpRoute)
  unfolding with_prefix
  get_http_routes_with_prefix s namespace prefix =
      with_prefix namespace prefix (list_routes s namespace)

  unfoldable pub metric : Text → HttpRoute → List (Text × Text × Text)
  metric operation route = if has_metric then (operation, route.namespace, route.name) ∷ [] else []

  unfoldable pub create_route : State → Text → HttpRoute → Outcome State
  unfolding written metric
  create_route s message route =
      written s message (metric (codes "create") route) (routes.create_object s route)

  -- The route in the cluster, with the annotations and the specification of the desired one.
  abbrev pub updated_route : HttpRoute → HttpRoute → HttpRoute
  updated_route existing route = record existing {
    annotations = route.annotations;
    hostnames = route.hostnames;
    parent_refs = route.parent_refs;
    rules = route.rules;
  }

  unfoldable pub update_result : State → HttpRoute → HttpRoute → Answer State → Outcome State
  unfolding written metric create_route fails
  update_result s route existing (err not_found) =
      create_route s (codes "failed to recreate HTTPRoute") route
  update_result s route existing (err (other m)) =
      fails s (wrapped (codes "failed to update HTTPRoute") (other m))
  update_result s route existing (ok s') = written s [] (metric (codes "update") existing) (ok s')

  unfoldable pub write_found : State → HttpRoute → Answer HttpRoute → Outcome State
  unfolding create_route update_result fails
  write_found s route (err not_found) = create_route s (codes "failed to create HTTPRoute") route
  write_found s route (err (other m)) = fails s (plain (other m))
  write_found s route (ok existing) =
      update_result s route existing (routes.update_object s (updated_route existing route))

  unfoldable pub apply_allowed : State → HttpRoute → Answer Bool → Outcome State
  unfolding done fails write_found
  apply_allowed s route (err e) = fails s (plain e)
  apply_allowed s route (ok false) = done s
  apply_allowed s route (ok true) =
      write_found s route (routes.get_object s route.namespace route.name)

  -- applyHTTPRoute
  unfoldable pub apply_http_route : State → HttpRoute → Outcome State
  unfolding apply_allowed
  apply_http_route s route =
      apply_allowed s route
        (can_update_resource (λ (r : HttpRoute). r.annotations) routes s route.namespace route.name)

  unfoldable pub after : Outcome State → (State → Outcome State) → Option Failure → Outcome State
  after first next (some f) = first
  after first next none =
      let later = next first.state in record later { metrics = first.metrics ++ later.metrics }

  unfoldable pub and_then : Outcome State → (State → Outcome State) → Outcome State
  unfolding after
  and_then first next = after first next first.failure

  pub delete_result : State → HttpRoute → Answer State → Outcome State
  unfolding fails written metric
  delete_result s route (err not_found) = written s [] (metric (codes "delete") route) (ok s)
  delete_result s route (err (other m)) =
      fails s (wrapped (codes "failed to delete obsolete HTTPRoute " ++ route.name) (other m))
  delete_result s route (ok s') = written s [] (metric (codes "delete") route) (ok s')

  -- The loop that deletes the routes of the ingress.
  unfoldable pub delete_routes : Ingress → List HttpRoute → State → Outcome State
  unfolding done and_then delete_result
  delete_routes ingress [] s = done s
  delete_routes ingress (route ∷ existing) s =
      let skip = delete_routes ingress existing s in
      let next =
        and_then (delete_result s route (routes.delete_object s route))
          (delete_routes ingress existing) in
      if is_managed_by_us_for_ingress route.annotations ingress.namespace ingress.name
      then next
      else skip

  unfoldable pub wrap_failure : Text → Option Failure → Option Failure
  wrap_failure message none = none
  wrap_failure message (some (plain e)) = some (wrapped message e)
  wrap_failure message (some (wrapped inner e)) =
      some (wrapped (message ++ (codes ": " ++ inner)) e)

  unfoldable pub wrap : Text → Outcome State → Outcome State
  unfolding wrap_failure
  wrap message first = record first { failure = wrap_failure message first.failure }

  -- The loop that writes the desired routes.
  unfoldable pub apply_routes : List HttpRoute → State → Outcome State
  unfolding done and_then wrap
  apply_routes [] s = done s
  apply_routes (route ∷ desired) s =
      and_then (wrap (codes "failed to apply HTTPRoute " ++ route.name) (apply_http_route s route))
        (apply_routes desired)

  unfoldable pub apply_to : Ingress → List HttpRoute → List HttpRoute → State → Outcome State
  unfolding and_then
  apply_to ingress (old ∷ []) (route ∷ []) s = apply_http_route s route
  apply_to ingress existing desired s =
      and_then (delete_routes ingress existing s) (apply_routes desired)

  unfoldable pub apply_listed :
      Ingress → List HttpRoute → State → Answer (List HttpRoute) → Outcome State
  unfolding fails apply_to
  apply_listed ingress desired s (err e) =
      fails s (wrapped (codes "failed to get existing HTTPRoutes") e)
  apply_listed ingress desired s (ok existing) = apply_to ingress existing desired s

  -- ApplyHTTPRoutesAtomic
  unfoldable pub apply_http_routes_atomic : Ingress → List HttpRoute → State → Outcome State
  unfolding apply_listed
  apply_http_routes_atomic ingress desired s =
      apply_listed ingress desired s (get_http_routes_with_prefix s ingress.namespace ingress.name)
