-- ===== src/Tests/Routes.antt =====
-- HTTPRoutes that are split, resolved and written, in a cluster in memory.
use ingress_operator.Prelude.{
  ◌≡◌, refl, subst, Bool, true, false, not, ◌&&◌, List, [], ◌∷◌, ◌==◌, keep, some, none, All,
  All-keep, Bool-cases, inl, inr, Distinct,
}
use ingress_operator.Text.{Text, codes, text_eq, same}
use ingress_operator.Text.Laws.{same_refl}
use ingress_operator.Dict.{get, lookup}
use ingress_operator.Kube.{HttpRoute, RouteRule, Service}
use ingress_operator.Client.{Answer, ok, Client, done, written}
use ingress_operator.Resource.{is_managed_by_us, updatable, can_update_resource}
use ingress_operator.Translator.{managed_by_annotation, managed_by_value, source_annotation}
use ingress_operator.HttpRoutes.{
  split_http_route_if_needed, resolve_named_ports, apply_http_routes_atomic, apply_listed, apply_to,
  get_http_routes_with_prefix, with_prefix, and_then, after, delete_routes, apply_routes, wrap,
  wrap_failure, apply_http_route, apply_allowed, write_found, create_route,
}
use ingress_operator.HttpRoutes.Split.{all_rules, names_of, IsPart, split_http_route_if_needed_lem}
use ingress_operator.HttpRoutes.Ports.{
  Pairwise, RuleIsResolved, IsNumbered, resolve_named_ports-RuleIsResolved,
}
use ingress_operator.HttpRoutes.Kept.{route_namespace, route_name, ok-injective}
use ingress_operator.HttpRoutes.Apply.{ListsStored, apply_http_routes_atomic-foreign}
use ingress_operator.HttpRoutes.Stored.{
  IsApplied, apply_http_routes_atomic-split_http_route_if_needed,
}
use ingress_operator.Tests.Data.{shop}
use ingress_operator.Tests.Memory.{memory, memory-IsLawful, stored}

abbrev routes : Client (List HttpRoute) HttpRoute
routes = memory route_namespace route_name

-- The newest version of each route.
unfoldable visible : List HttpRoute → List HttpRoute
visible [] = []
visible (o ∷ s) =
    o ∷ keep (λ (r : HttpRoute). not (o.namespace == r.namespace && o.name == r.name)) (visible s)

module _ (s : List HttpRoute) (o : HttpRoute) where
  abbrev other_than : HttpRoute → Bool
  other_than r = not (o.namespace == r.namespace && o.name == r.name)

  keep-stored :
      (xs : List HttpRoute)
      → All (λ (r : HttpRoute). stored route_namespace route_name s r.namespace r.name ≡ ok r) xs
      → All
          (λ (r : HttpRoute). stored route_namespace route_name (o ∷ s) r.namespace r.name ≡ ok r)
          (keep other_than xs)
  unfolding keep stored
  keep-stored [] h = tt
  keep-stored (x ∷ xs) h = elim (Bool-cases (o.namespace == x.namespace && o.name == x.name)) [
    | inl b ↦ rw b (keep-stored xs h.1)
    | inr b ↦ rw b ((rw b h.0), keep-stored xs h.1)
  ]

visible-stored :
    (s : List HttpRoute)
    → All
        (λ (r : HttpRoute). stored route_namespace route_name s r.namespace r.name ≡ ok r)
        (visible s)
unfolding visible
visible-stored [] = tt
visible-stored (o ∷ s) = (here, keep-stored s o (visible s) (visible-stored s))
  where
    here : stored route_namespace route_name (o ∷ s) o.namespace o.name ≡ ok o
    here = unfold stored in rw (same_refl o.namespace, same_refl o.name) refl

abbrev list_routes : List HttpRoute → Text → Answer (List HttpRoute)
list_routes s namespace = ok (keep (λ (r : HttpRoute). r.namespace == namespace) (visible s))

list_routes-stored :
    (n m : Text)
    → ListsStored routes (memory-IsLawful route_namespace route_name) list_routes true n m
list_routes-stored n m s namespace items h =
    subst (All (λ (r : HttpRoute). stored route_namespace route_name s r.namespace r.name ≡ ok r))
      (ok-injective (keep (λ (r : HttpRoute). r.namespace == namespace) (visible s)) items h)
      (All-keep _ _ (visible s) (visible-stored s))

abbrev plain_rule : RouteRule
plain_rule = record {
  matches = [];
  filters = [];
  backend_refs = record { name = codes "cart"; port = some 0; weight = some 1 } ∷ [];
}

abbrev shop_route : HttpRoute
shop_route = record {
  namespace = codes "ns";
  name = codes "shop";
  annotations =
      (managed_by_annotation, managed_by_value) ∷ (source_annotation, codes "ns/shop") ∷ [];
  owner_references = [];
  finalizers = [];
  deleting = false;
  hostnames = codes "a.new.io" ∷ [];
  parent_refs = [];
  rules = plain_rule ∷ [];
}

abbrev foreign_route : HttpRoute
foreign_route = record shop_route { annotations = [] }

split_http_route_if_needed_lem_example :
    (all_rules (split_http_route_if_needed shop_route) ≡ shop_route.rules)
    × All (IsPart shop_route) (split_http_route_if_needed shop_route)
    × Distinct (names_of (split_http_route_if_needed shop_route))
split_http_route_if_needed_lem_example = split_http_route_if_needed_lem shop_route

abbrev cart_service : Text → Text → Answer Service
cart_service namespace name = ok (record {
  namespace = namespace;
  name = name;
  ports = record { name = codes "http"; port = 8080 } ∷ [];
})

cart_service-IsNumbered :
    (namespace name : Text) (service : Service)
    → cart_service namespace name ≡ ok service
    → IsNumbered service
cart_service-IsNumbered namespace name service h =
    subst IsNumbered (ok-injective _ service h) (refl, tt)

resolve_named_ports-RuleIsResolved_example :
    (record (resolve_named_ports cart_service shop shop_route []) { rules = shop_route.rules }
      ≡ shop_route)
    × Pairwise RuleIsResolved shop_route.rules
        (resolve_named_ports cart_service shop shop_route []).rules
resolve_named_ports-RuleIsResolved_example =
    resolve_named_ports-RuleIsResolved cart_service cart_service-IsNumbered shop shop_route []

apply_http_routes_atomic-foreign_example :
    stored route_namespace route_name
      (apply_http_routes_atomic routes list_routes true shop
        (shop_route ∷ [])
        (foreign_route ∷ [])).state
      (codes "ns")
      (codes "shop")
    ≡ ok foreign_route
apply_http_routes_atomic-foreign_example =
    apply_http_routes_atomic-foreign routes (memory-IsLawful route_namespace route_name) list_routes
      true (codes "ns") (codes "shop") (list_routes-stored (codes "ns") (codes "shop"))
      foreign_route (unfold is_managed_by_us get lookup same in refl) shop (shop_route ∷ [])
      (foreign_route ∷ []) (unfold stored same in refl)

shop_applied :
    (apply_http_routes_atomic routes list_routes true shop
      (split_http_route_if_needed shop_route)
      []).failure
    ≡ none
unfolding apply_http_routes_atomic apply_listed apply_to get_http_routes_with_prefix with_prefix
    split_http_route_if_needed keep visible and_then after delete_routes apply_routes wrap
    wrap_failure apply_http_route can_update_resource updatable apply_allowed write_found
    create_route written stored done
shop_applied = refl

apply_http_routes_atomic-split_http_route_if_needed_example :
    All
      (IsApplied routes
        (memory-IsLawful route_namespace route_name)
        list_routes
        true
        (apply_http_routes_atomic routes list_routes true shop
          (split_http_route_if_needed shop_route)
          []).state)
      (split_http_route_if_needed shop_route)
apply_http_routes_atomic-split_http_route_if_needed_example =
    apply_http_routes_atomic-split_http_route_if_needed routes
      (memory-IsLawful route_namespace route_name) list_routes true shop shop_route [] shop_applied
