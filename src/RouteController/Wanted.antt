-- ===== src/RouteController/Wanted.antt =====
-- The desired state of the listeners is what the routes say.
use ingress_operator.Prelude.{
  ◌≡◌, refl, ap, ◌∙◌, Bool, true, false, ◌&&◌, ◌||◌, List, [], ◌∷◌, ◌==◌, contains, some_of, arith,
}
use ingress_operator.Text.{Text, text_eq, same_iff}
use ingress_operator.Dict.{Dict, keys, lookup, insert, lookup-insert, contains-keys}
use ingress_operator.Kube.{HttpRoute}
use ingress_operator.RouteController.{
  known_namespaces, add_hostnames, desired_state_from, calculate_desired_listener_state,
}

-- The state has the namespace for the hostname.
abbrev pub has_namespace : Dict (Dict Bool) → Text → Text → Bool
has_namespace state hostname n = contains (keys (known_namespaces (lookup hostname state))) n

contains-keys-insert :
    (k n : Text) (d : Dict Bool)
    → contains (keys (insert k true d)) n ≡ (k == n || contains (keys d) n)
contains-keys-insert k n d =
    ground (arith, contains-keys n (insert k true d), contains-keys n d, lookup-insert n k true d)

has_namespace-add_hostnames :
    (x n namespace : Text) (hostnames : List Text) (state : Dict (Dict Bool))
    → has_namespace (add_hostnames namespace hostnames state) x n
      ≡ ((namespace == n && contains hostnames x) || has_namespace state x n)
unfolding add_hostnames contains
has_namespace-add_hostnames x n namespace [] state = ground arith
has_namespace-add_hostnames x n namespace (h ∷ hs) state =
    has_namespace-add_hostnames x n namespace hs _
    ∙ ap (λ b. (namespace == n && contains hs x) || b) (inserted (h == x) refl)
    ∙ ground arith
  where
    inserted :
        (b : Bool)
        → (h == x) ≡ b
        → has_namespace
            (insert h (insert namespace true (known_namespaces (lookup h state))) state)
            x
            n
          ≡ ((namespace == n && b) || has_namespace state x n)
    inserted true e =
        rw (lookup-insert x h, e)
          (contains-keys-insert namespace n (known_namespaces (lookup h state))
            ∙ rw ((same_iff h x).0 e) (ground arith))
    inserted false e = rw (lookup-insert x h, e) (ground arith)

has_namespace-desired_state_from :
    (x n : Text) (routes : List HttpRoute) (state : Dict (Dict Bool))
    → has_namespace (desired_state_from routes state) x n ≡ (
        some_of (λ (r : HttpRoute). r.namespace == n && contains r.hostnames x) routes
        || has_namespace state x n)
unfolding desired_state_from some_of
has_namespace-desired_state_from x n [] state = ground arith
has_namespace-desired_state_from x n (r ∷ routes) state = ground (
  arith,
  has_namespace-desired_state_from x n routes (add_hostnames r.namespace r.hostnames state),
  has_namespace-add_hostnames x n r.namespace r.hostnames state,
)

-- In the desired state a hostname has a namespace exactly if some route of that namespace has the
-- hostname.
pub has_namespace-calculate_desired_listener_state :
    (routes : List HttpRoute) (x n : Text)
    → has_namespace (calculate_desired_listener_state routes) x n
      ≡ some_of (λ (r : HttpRoute). r.namespace == n && contains r.hostnames x) routes
unfolding calculate_desired_listener_state
has_namespace-calculate_desired_listener_state routes x n =
    has_namespace-desired_state_from x n routes []
    ∙ unfold known_namespaces lookup keys contains in ground arith
