-- ===== src/HttpRoutes/Stored.antt =====
-- ApplyHTTPRoutesAtomic stores the desired routes.
use ingress_operator.Prelude.{
  ◌≡◌, refl, sym, ap, ◌∙◌, subst, Bool, true, false, ◌==◌, Option, none, some, List, [], ◌∷◌, ◌++◌,
  arith, inl, inr, ◌⊎◌, All, contains, Distinct,
}
use ingress_operator.Text.{Text, codes, text_eq}
use ingress_operator.Text.Laws.{same_refl}
use ingress_operator.Kube.{Ingress, HttpRoute}
use ingress_operator.Client.{
  not_found, other, Failure, plain, wrapped, Answer, ok, err, Client, IsLawful, Outcome, done,
  fails, written,
}
use ingress_operator.Resource.{is_managed_by_us, can_update_resource, updatable}
use ingress_operator.HttpRoutes.{
  split_http_route_if_needed, create_route, updated_route, update_result, write_found,
  apply_allowed, apply_http_route, after, and_then, delete_routes, wrap_failure, wrap, apply_routes,
  apply_to, apply_listed, apply_http_routes_atomic, metric,
}
use ingress_operator.HttpRoutes.Split.{IsPart, names_of, split_http_route_if_needed_lem}
use ingress_operator.HttpRoutes.Kept.{
  annotations_of, route_namespace, route_name, named, apply_allowed-kept,
}

module _ {State : Type 0} (routes : Client State HttpRoute)
    (lawful : IsLawful route_namespace route_name routes)
    (list_routes : State → Text → Answer (List HttpRoute)) (has_metric : Bool) where
  -- The desired route is stored, or a route of its name that the operator does not manage.
  abbrev pub IsApplied : State → HttpRoute → Type 0
  IsApplied s d =
      (r : HttpRoute) × (routes.get_object s d.namespace d.name ≡ ok r)
      × ((record r {
        annotations = d.annotations;
        hostnames = d.hostnames;
        parent_refs = d.parent_refs;
        rules = d.rules;
      }
            ≡ r)
          ⊎ (is_managed_by_us r.annotations ≡ false))

  created-IsApplied :
      (s : State) (message : Text) (d : HttpRoute)
      → (create_route routes list_routes has_metric s message d).failure ≡ none
      → IsApplied (create_route routes list_routes has_metric s message d).state d
  unfolding create_route
  created-IsApplied s message d = go (routes.create_object s d) refl
    where
      go :
          (a : Answer State)
          → routes.create_object s d ≡ a
          → (written s message (metric routes list_routes has_metric (codes "create") d) a).failure
            ≡ none
          → IsApplied
              (written s message (metric routes list_routes has_metric (codes "create") d) a).state
              d
      go (ok s') e h = (
        d,
        (unfold written in
            (lawful.get-create s s' d d.namespace d.name e
              ∙ rw (same_refl d.namespace, same_refl d.name) refl)),
        inl refl,
      )
      go (err x) e h = unfold written fails in cc

  updated-IsApplied :
      (s : State) (d existing : HttpRoute) (a : Answer State)
      → routes.update_object s (updated_route routes list_routes has_metric existing d) ≡ a
      → existing.namespace ≡ d.namespace
      → existing.name ≡ d.name
      → (update_result routes list_routes has_metric s d existing a).failure ≡ none
      → IsApplied (update_result routes list_routes has_metric s d existing a).state d
  unfolding update_result written fails
  updated-IsApplied s d existing (ok s') e p q h = (
    updated_route routes list_routes has_metric existing d,
    lawful.get-update s s' (updated_route routes list_routes has_metric existing d) d.namespace
          d.name e
        ∙ rw (p, q, same_refl d.namespace, same_refl d.name) refl,
    inl refl,
  )
  updated-IsApplied s d existing (err not_found) e p q h =
      created-IsApplied s (codes "failed to recreate HTTPRoute") d h
  updated-IsApplied s d existing (err (other x)) e p q h = cc

  written-IsApplied :
      (s : State) (d : HttpRoute) (a : Answer HttpRoute)
      → routes.get_object s d.namespace d.name ≡ a
      → (write_found routes list_routes has_metric s d a).failure ≡ none
      → IsApplied (write_found routes list_routes has_metric s d a).state d
  unfolding write_found fails
  written-IsApplied s d (err not_found) e h =
      created-IsApplied s (codes "failed to create HTTPRoute") d h
  written-IsApplied s d (err (other x)) e h = cc
  written-IsApplied s d (ok existing) e h =
      let (p, q) = lawful.get-names s existing d.namespace d.name e in
      updated-IsApplied s d existing _ refl p q h

  allowed-IsApplied :
      (s : State) (d : HttpRoute) (a : Answer HttpRoute)
      → routes.get_object s d.namespace d.name ≡ a
      → (apply_allowed routes list_routes has_metric s d
          (updatable annotations_of routes a)).failure
        ≡ none
      → IsApplied
          (apply_allowed routes list_routes has_metric s d
            (updatable annotations_of routes a)).state
          d
  unfolding updatable
  allowed-IsApplied s d (err not_found) e h = unfold apply_allowed in written-IsApplied s d _ refl h
  allowed-IsApplied s d (err (other x)) e h = unfold apply_allowed fails in cc
  allowed-IsApplied s d (ok existing) e h = by_owner (is_managed_by_us existing.annotations) refl h
    where
      by_owner :
          (b : Bool)
          → is_managed_by_us existing.annotations ≡ b
          → (apply_allowed routes list_routes has_metric s d (ok b)).failure ≡ none
          → IsApplied (apply_allowed routes list_routes has_metric s d (ok b)).state d
      by_owner true p h = unfold apply_allowed in written-IsApplied s d _ refl h
      by_owner false p h = unfold apply_allowed done in (existing, e, inr p)

  apply_http_route-IsApplied :
      (s : State) (d : HttpRoute)
      → (apply_http_route routes list_routes has_metric s d).failure ≡ none
      → IsApplied (apply_http_route routes list_routes has_metric s d).state d
  unfolding apply_http_route can_update_resource
  apply_http_route-IsApplied s d = allowed-IsApplied s d _ refl

  unwrapped :
      (message : Text) (f : Option Failure)
      → wrap_failure routes list_routes has_metric message f ≡ none
      → f ≡ none
  unfolding wrap_failure
  unwrapped message none h = refl
  unwrapped message (some (plain e)) h = cc
  unwrapped message (some (wrapped inner e)) h = cc

  either :
      (P : State → Type 0) (first : Outcome State) (next : State → Outcome State)
      (f : Option Failure)
      → P first.state
      → P (next first.state).state
      → P (after routes list_routes has_metric first next f).state
  unfolding after
  either P first next none p q = q
  either P first next (some f) p q = p

  both :
      (first : Outcome State) (next : State → Outcome State) (f : Option Failure)
      → first.failure ≡ f
      → (after routes list_routes has_metric first next f).failure ≡ none
      → (first.failure ≡ none)
        × ((next first.state).failure ≡ none)
        × ((after routes list_routes has_metric first next f).state ≡ (next first.state).state)
  unfolding after
  both first next none e h = (e, h, refl)
  both first next (some f) e h = cc

  -- A route is kept where one of another name is written.
  IsApplied-kept :
      (s : State) (d other_route : HttpRoute)
      → named routes lawful list_routes has_metric d.namespace d.name other_route ≡ false
      → IsApplied s d
      → IsApplied (apply_http_route routes list_routes has_metric s other_route).state d
  unfolding apply_http_route
  IsApplied-kept s d other_route h (r, e, p) = (
    r,
    apply_allowed-kept routes lawful list_routes has_metric d.namespace d.name s other_route _ h
        ∙ e,
    p,
  )

  -- All the routes have the namespace.
  abbrev pub AllIn : Text → List HttpRoute → Type 0
  AllIn namespace = All λ (d : HttpRoute). d.namespace ≡ namespace

  apply_routes-kept :
      (desired : List HttpRoute) (s : State) (d : HttpRoute) (namespace : Text)
      → AllIn namespace desired
      → contains (names_of desired) d.name ≡ false
      → IsApplied s d
      → IsApplied (apply_routes routes list_routes has_metric desired s).state d
  unfolding apply_routes done and_then wrap
  apply_routes-kept [] s d namespace a c h = h
  apply_routes-kept (e ∷ desired) s d namespace a c h =
      let first = apply_http_route routes list_routes has_metric s e in
      let name_differs : (e.name == d.name) ≡ false =
        unfold names_of contains in ground (arith, c) in
      let rest : contains (names_of desired) d.name ≡ false =
        unfold names_of contains in ground (arith, c) in
      let kept : IsApplied first.state d =
        IsApplied-kept s d e (rw name_differs (ground arith)) h in
      either (λ s'. IsApplied s' d)
        (wrap routes list_routes has_metric (codes "failed to apply HTTPRoute " ++ e.name) first)
        (apply_routes routes list_routes has_metric desired) _ kept
        (apply_routes-kept desired first.state d namespace a.1 rest kept)

  -- A success of all is one of the first and one of the others.
  apply_routes_succeeds :
      (e : HttpRoute) (desired : List HttpRoute) (s : State)
      → (apply_routes routes list_routes has_metric (e ∷ desired) s).failure ≡ none
      → ((apply_http_route routes list_routes has_metric s e).failure ≡ none)
        × ((apply_routes routes list_routes has_metric desired
              (apply_http_route routes list_routes has_metric s e).state).failure
            ≡ none)
        × ((apply_routes routes list_routes has_metric (e ∷ desired) s).state
            ≡ (apply_routes routes list_routes has_metric desired
                (apply_http_route routes list_routes has_metric s e).state).state)
  unfolding apply_routes and_then wrap
  apply_routes_succeeds e desired s h =
      let message = codes "failed to apply HTTPRoute " ++ e.name in
      let first = apply_http_route routes list_routes has_metric s e in
      let (p, q, r) =
        both (wrap routes list_routes has_metric message first)
          (apply_routes routes list_routes has_metric desired) _ refl h in
      (unwrapped message first.failure p, q, r)

  apply_routes-IsApplied :
      (desired : List HttpRoute) (s : State) (namespace : Text)
      → AllIn namespace desired
      → Distinct (names_of desired)
      → (apply_routes routes list_routes has_metric desired s).failure ≡ none
      → All (IsApplied (apply_routes routes list_routes has_metric desired s).state) desired
  apply_routes-IsApplied [] s namespace a d h = tt
  apply_routes-IsApplied (e ∷ desired) s namespace a d h =
      let (p, q, r) = apply_routes_succeeds e desired s h in
      let first = apply_http_route routes list_routes has_metric s e in
      subst (λ s'. All (IsApplied s') (e ∷ desired)) (sym r)
        (
          apply_routes-kept desired first.state e namespace a.1 (unfold names_of in d.0)
              (apply_http_route-IsApplied s e p),
          apply_routes-IsApplied desired first.state namespace a.1 (unfold names_of in d.1) q,
        )

  replaced :
      (ingress : Ingress) (existing desired : List HttpRoute) (s : State) (namespace : Text)
      → AllIn namespace desired
      → Distinct (names_of desired)
      → (and_then routes list_routes has_metric
          (delete_routes routes list_routes has_metric ingress existing s)
          (apply_routes routes list_routes has_metric desired)).failure
        ≡ none
      → All
          (IsApplied
            (and_then routes list_routes has_metric
              (delete_routes routes list_routes has_metric ingress existing s)
              (apply_routes routes list_routes has_metric desired)).state)
          desired
  unfolding and_then
  replaced ingress existing desired s namespace a d h =
      let cleared = delete_routes routes list_routes has_metric ingress existing s in
      let (p, q, r) = both cleared (apply_routes routes list_routes has_metric desired) _ refl h in
      subst (λ s'. All (IsApplied s') desired) (sym r)
        (apply_routes-IsApplied desired cleared.state namespace a d q)

  apply_to-IsApplied :
      (ingress : Ingress) (existing desired : List HttpRoute) (s : State) (namespace : Text)
      → AllIn namespace desired
      → Distinct (names_of desired)
      → (apply_to routes list_routes has_metric ingress existing desired s).failure ≡ none
      → All
          (IsApplied (apply_to routes list_routes has_metric ingress existing desired s).state)
          desired
  unfolding apply_to
  apply_to-IsApplied ingress [] desired s n a d h = replaced ingress [] desired s n a d h
  apply_to-IsApplied ingress (r ∷ []) [] s n a d h = tt
  apply_to-IsApplied ingress (r ∷ []) (e ∷ []) s n a d h = (apply_http_route-IsApplied s e h, tt)
  apply_to-IsApplied ingress (r ∷ []) (e ∷ f ∷ desired) s n a d h =
      replaced ingress (r ∷ []) (e ∷ f ∷ desired) s n a d h
  apply_to-IsApplied ingress (r ∷ q ∷ existing) desired s n a d h =
      replaced ingress (r ∷ q ∷ existing) desired s n a d h

  apply_listed-IsApplied :
      (ingress : Ingress) (desired : List HttpRoute) (s : State) (items : Answer (List HttpRoute))
      (namespace : Text)
      → AllIn namespace desired
      → Distinct (names_of desired)
      → (apply_listed routes list_routes has_metric ingress desired s items).failure ≡ none
      → All
          (IsApplied (apply_listed routes list_routes has_metric ingress desired s items).state)
          desired
  unfolding apply_listed
  apply_listed-IsApplied ingress desired s (err e) n a d h = absurd (unfold fails in cc)
  apply_listed-IsApplied ingress desired s (ok items) n a d h =
      apply_to-IsApplied ingress items desired s n a d h

  parts_in :
      (route : HttpRoute) (ps : List HttpRoute) → All (IsPart route) ps → AllIn route.namespace ps
  parts_in route [] h = tt
  parts_in route (p ∷ ps) (hp, h) = (ap (λ (r : HttpRoute). r.namespace) hp.1, parts_in route ps h)

  -- Where apply_http_routes_atomic is given the parts of a split route and succeeds, each part is
  -- stored under its name, with its annotations, hostnames, parents and rules, unless a route of
  -- that name is there that the operator does not manage.
  pub apply_http_routes_atomic-split_http_route_if_needed :
      (ingress : Ingress) (route : HttpRoute) (s : State)
      → (apply_http_routes_atomic routes list_routes has_metric ingress
          (split_http_route_if_needed route)
          s).failure
        ≡ none
      → All
          (IsApplied
            (apply_http_routes_atomic routes list_routes has_metric ingress
              (split_http_route_if_needed route)
              s).state)
          (split_http_route_if_needed route)
  unfolding apply_http_routes_atomic
  apply_http_routes_atomic-split_http_route_if_needed ingress route s =
      let split = split_http_route_if_needed_lem route in
      apply_listed-IsApplied ingress (split_http_route_if_needed route) s _ route.namespace
        (parts_in route (split_http_route_if_needed route) split.1) split.2
