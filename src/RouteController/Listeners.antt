-- ===== src/RouteController/Listeners.antt =====
-- reconcileListenersToDesiredState of internal/controller/httproute_controller.go.
use ingress_operator.Prelude.{
  Bool, true, false, not, ◌||◌, Option, none, some, List, [], ◌∷◌, ◌++◌, ◌==◌, if◌then◌else◌,
  contains, keep, some_of,
}
use ingress_operator.Text.{Text, text_eq}
use ingress_operator.Dict.{Dict, keys, lookup, MapOrder}
use ingress_operator.Kube.{Listener, SecretRef}
use ingress_operator.Translator.Gateway.Shared.{sort_strings}
use ingress_operator.RouteController.Allowed.{
  update_listener_namespaces, update_listener_tls, create_listener_with_namespaces,
}

-- The listener has the hostname.
unfoldable pub serves_hostname : Text → Option Text → Bool
serves_hostname hostname none = false
serves_hostname hostname (some h) = h == hostname

-- The first listener of the hostname, as findListenerByHostname finds it.
unfoldable pub find_listener : Text → List Listener → Option Listener
unfolding serves_hostname
find_listener hostname [] = none
find_listener hostname (l ∷ ls) =
    if serves_hostname hostname l.hostname then some l else find_listener hostname ls

-- The first listener of the hostname is changed.
unfoldable pub change_first : (Listener → Listener) → Text → List Listener → List Listener
unfolding serves_hostname
change_first change hostname [] = []
change_first change hostname (l ∷ ls) =
    let rest = change_first change hostname ls in
    if serves_hostname hostname l.hostname then change l ∷ ls else l ∷ rest

-- The first step of reconcileListenersToDesiredState: the listeners without a route go. A listener
-- without a hostname counts as one with an empty one.
abbrev pub listener_hostname : Listener → Text
listener_hostname l = elim l.hostname [ none ↦ [] | some h ↦ h ]

unfoldable pub wanted : Dict (Dict Bool) → Listener → Bool
wanted state l = contains (keys state) (listener_hostname l)

module _ (order : MapOrder) (desired_tls : Dict (List SecretRef)) (tls_unknown : List Text) where
  -- An existing listener of a hostname, with the namespaces and, if it is known, the TLS.
  unfoldable pub updated_listener : Text → List Text → Listener → Listener × Bool
  updated_listener hostname namespaces l =
      let (l', updated) = update_listener_namespaces namespaces l in
      let (l'', tls_updated) = update_listener_tls (lookup hostname desired_tls) l' in
      if contains tls_unknown hostname then (l', updated) else (l'', updated || tls_updated)

  unfoldable pub hostname_found :
      Text → List Text → List Listener → Bool → Option Listener → List Listener × Bool
  unfolding change_first
  hostname_found hostname namespaces listeners updated (some l) = (
    change_first (λ x. (updated_listener hostname namespaces x).0) hostname listeners,
    updated || (updated_listener hostname namespaces l).1,
  )
  hostname_found hostname namespaces listeners updated none =
      if contains tls_unknown hostname then (listeners, updated) else (
        listeners
            ++ (create_listener_with_namespaces hostname namespaces (lookup hostname desired_tls)
                ∷ []),
        true,
      )

  -- One round of the second step.
  unfoldable pub reconcile_hostname : Text → List Text → List Listener × Bool → List Listener × Bool
  unfolding hostname_found find_listener
  reconcile_hostname hostname namespaces (listeners, updated) =
      hostname_found hostname namespaces listeners updated (find_listener hostname listeners)

  unfoldable pub reconcile_hostnames :
      Dict (Dict Bool) → List Listener × Bool → List Listener × Bool
  unfolding reconcile_hostname
  reconcile_hostnames [] done_so_far = done_so_far
  reconcile_hostnames ((hostname, namespaces) ∷ state) done_so_far = reconcile_hostnames state (
      reconcile_hostname hostname (sort_strings (keys (order.arrange Bool namespaces))) done_so_far)

  -- reconcileListenersToDesiredState: the listeners, and whether they were modified.
  unfoldable pub reconcile_listeners_to_desired_state :
      List Listener → Dict (Dict Bool) → List Listener × Bool
  unfolding reconcile_hostnames wanted
  reconcile_listeners_to_desired_state listeners state =
      reconcile_hostnames (order.arrange (Dict Bool) state)
        (keep (wanted state) listeners, some_of (λ l. not (wanted state l)) listeners)
