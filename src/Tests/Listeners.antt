-- ===== src/Tests/Listeners.antt =====
-- The listeners that are kept from routes, at concrete routes.
use ingress_operator.Prelude.{
  ◌≡◌, refl, Bool, true, false, not, ◌&&◌, ◌||◌, [], ◌∷◌, ◌==◌, contains, some_of, List, none, some,
}
use ingress_operator.Text.{codes, Text, text_eq, same}
use ingress_operator.Dict.{Dict, IsMap, keys, lookup, insertion_order}
use ingress_operator.Kube.{HttpRoute, Listener}
use ingress_operator.RouteController.{calculate_desired_listener_state}
use ingress_operator.RouteController.Allowed.{create_listener_with_namespaces}
use ingress_operator.RouteController.Listeners.{
  reconcile_listeners_to_desired_state, find_listener, serves_hostname,
}
use ingress_operator.RouteController.Wanted.{
  has_namespace, has_namespace-calculate_desired_listener_state,
}
use ingress_operator.Selectors.{admits}
use ingress_operator.RouteController.Settled.{reconcile_listeners_to_desired_state-admits}
use ingress_operator.RouteController.Kept.{
  has_listener, has_listener-reconcile_listeners_to_desired_state,
}

-- A namespace with a route for two hostnames.
abbrev shop_route : HttpRoute
shop_route = record {
  namespace = codes "ns";
  name = codes "shop";
  annotations = [];
  parent_refs = [];
  hostnames = codes "a.io" ∷ codes "b.io" ∷ [];
  rules = [];
  owner_references = [];
  finalizers = [];
  deleting = false;
}

abbrev desired_state : Dict (Dict Bool)
desired_state =
    (codes "a.io", (codes "ns", true) ∷ []) ∷ (codes "b.io", (codes "ns", true) ∷ []) ∷ []

abbrev old_listeners : List Listener
old_listeners = create_listener_with_namespaces (codes "c.io") (codes "ns" ∷ []) none ∷ []

desired_state-IsMap : IsMap desired_state
unfolding lookup same
desired_state-IsMap = (refl, (refl, tt))

has_namespace-calculate_desired_listener_state_example :
    has_namespace (calculate_desired_listener_state (shop_route ∷ [])) (codes "b.io") (codes "ns")
    ≡ some_of
        (λ (r : HttpRoute). r.namespace == codes "ns" && contains r.hostnames (codes "b.io"))
        (shop_route ∷ [])
has_namespace-calculate_desired_listener_state_example =
    has_namespace-calculate_desired_listener_state (shop_route ∷ []) (codes "b.io") (codes "ns")

has_listener-reconcile_listeners_to_desired_state_example :
    has_listener
      (codes "a.io")
      (reconcile_listeners_to_desired_state insertion_order []
        (codes "b.io" ∷ [])
        old_listeners
        desired_state).0
    ≡ (contains (keys desired_state) (codes "a.io")
        && (has_listener (codes "a.io") old_listeners
            || not (contains (codes "b.io" ∷ []) (codes "a.io"))))
unfolding same
has_listener-reconcile_listeners_to_desired_state_example =
    has_listener-reconcile_listeners_to_desired_state insertion_order [] (codes "b.io" ∷ [])
      old_listeners desired_state (codes "a.io") desired_state-IsMap refl

abbrev desired_namespaces : Dict Bool
desired_namespaces = (codes "ns", true) ∷ []

desired_namespaces-IsMap : IsMap desired_namespaces
unfolding lookup same
desired_namespaces-IsMap = (refl, tt)

reconcile_listeners_to_desired_state-admits_example :
    (l : Listener) × (find_listener
        (codes "a.io")
        (reconcile_listeners_to_desired_state insertion_order []
          (codes "b.io" ∷ [])
          old_listeners
          desired_state).0
      ≡ some l)
    × ((n : Text) → admits l.selector n ≡ contains (keys desired_namespaces) n)
unfolding lookup same contains find_listener serves_hostname create_listener_with_namespaces
reconcile_listeners_to_desired_state-admits_example =
    reconcile_listeners_to_desired_state-admits insertion_order [] (codes "b.io" ∷ []) old_listeners
      desired_state (codes "a.io") desired_namespaces desired_state-IsMap desired_namespaces-IsMap
      refl refl tt refl
