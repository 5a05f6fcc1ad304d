-- ===== src/HttpRoutes/Apply.antt =====
-- ApplyHTTPRoutesAtomic writes the desired routes and leaves foreign routes alone.
use ingress_operator.Prelude.{
  ◌≡◌, refl, sym, ap, ◌∙◌, subst, Bool, true, false, ◌&&◌, ◌==◌, List, [], ◌∷◌, ◌++◌, arith,
  Bool-cases, inl, inr, All, All-keep,
}
use ingress_operator.Text.{Text, codes, text_eq, same_iff}
use ingress_operator.Kube.{Ingress, HttpRoute}
use ingress_operator.Client.{Answer, ok, err, Client, IsLawful, done, fails}
use ingress_operator.Resource.{
  is_managed_by_us, is_managed_by_us_for_ingress, can_update_resource, updatable,
}
use ingress_operator.HttpRoutes.{
  get_http_routes_with_prefix, with_prefix, apply_allowed, apply_http_route, and_then,
  delete_result, delete_routes, wrap, apply_routes, apply_to, apply_listed,
  apply_http_routes_atomic,
}
use ingress_operator.HttpRoutes.Kept.{
  annotations_of, route_namespace, route_name, ok-injective, named, apply_allowed-kept,
  delete_result-kept, after-kept,
}

module _ {State : Type 0} (routes : Client State HttpRoute)
    (lawful : IsLawful route_namespace route_name routes)
    (list_routes : State → Text → Answer (List HttpRoute)) (has_metric : Bool) where
  -- What is read under a name, where each write is to another one.
  module _ (n m : Text) where
    module _ (foreign : HttpRoute) (unmanaged : is_managed_by_us foreign.annotations ≡ false) where
      -- The foreign route is read.
      abbrev Kept : State → Type 0
      Kept s = routes.get_object s n m ≡ ok foreign

      apply_http_route-Kept :
          (s : State) (d : HttpRoute)
          → Kept s
          → Kept (apply_http_route routes list_routes has_metric s d).state
      unfolding apply_http_route
      apply_http_route-Kept s d h =
          elim (Bool-cases (named routes lawful list_routes has_metric n m d)) [
            | inr b ↦ apply_allowed-kept routes lawful list_routes has_metric n m s d _ b ∙ h
            | inl b ↦
                let there : routes.get_object s d.namespace d.name ≡ ok foreign =
                  at_names d.namespace d.name b in
                let refused : can_update_resource annotations_of routes s d.namespace d.name
                    ≡ ok false =
                  unfold can_update_resource updatable in
                  (ap (updatable annotations_of routes) there ∙ rw unmanaged refl) in
                subst (λ a. Kept (apply_allowed routes list_routes has_metric s d a).state)
                  (sym refused) (unfold apply_allowed done in h)
          ]
        where
          at_names : (p q : Text) → (p == n && q == m) ≡ true → routes.get_object s p q ≡ ok foreign
          at_names p q b =
              let ep : p ≡ n = (same_iff p n).0 (ground (arith, b)) in
              let eq : q ≡ m = (same_iff q m).0 (ground (arith, b)) in rw (ep, eq) h

      apply_routes-Kept :
          (desired : List HttpRoute) (s : State)
          → Kept s
          → Kept (apply_routes routes list_routes has_metric desired s).state
      unfolding apply_routes done and_then wrap
      apply_routes-Kept [] s h = h
      apply_routes-Kept (d ∷ desired) s h =
          after-kept routes lawful list_routes has_metric n m
            (wrap routes list_routes has_metric (codes "failed to apply HTTPRoute " ++ d.name)
              (apply_http_route routes list_routes has_metric s d))
            (apply_routes routes list_routes has_metric desired) _ foreign
            (apply_http_route-Kept s d h) (apply_routes-Kept desired)

      delete_routes-Kept :
          (ingress : Ingress) (existing : List HttpRoute) (s : State)
          → All
              (λ (r : HttpRoute).
                is_managed_by_us_for_ingress r.annotations ingress.namespace ingress.name ≡ true
                → named routes lawful list_routes has_metric n m r ≡ false)
              existing
          → Kept s
          → Kept (delete_routes routes list_routes has_metric ingress existing s).state
      unfolding delete_routes done and_then
      delete_routes-Kept ingress [] s h k = k
      delete_routes-Kept ingress (r ∷ existing) s h k =
          elim (Bool-cases
            (is_managed_by_us_for_ingress r.annotations ingress.namespace ingress.name)) [
              | inr b ↦ rw b (delete_routes-Kept ingress existing s h.1 k)
              | inl b ↦ rw b (
                  after-kept routes lawful list_routes has_metric n m
                    (delete_result routes list_routes has_metric s r (routes.delete_object s r))
                    (delete_routes routes list_routes has_metric ingress existing) _ foreign
                    (delete_result-kept routes lawful list_routes has_metric n m s r _ refl (h.0 b)
                      ∙ k)
                    (λ s'. delete_routes-Kept ingress existing s' h.1))
            ]

      -- A route that is listed as managed is not the foreign one.
      listed_other :
          (s : State) (r : HttpRoute) (namespace name : Text)
          → routes.get_object s r.namespace r.name ≡ ok r
          → Kept s
          → is_managed_by_us_for_ingress r.annotations namespace name ≡ true
          → named routes lawful list_routes has_metric n m r ≡ false
      listed_other s r namespace name e h b =
          elim (Bool-cases (named routes lawful list_routes has_metric n m r)) [
            | inr q ↦ q
            | inl q ↦
                let here : ok r ≡ ok foreign = sym e ∙ found r.namespace r.name q in
                let managed : is_managed_by_us r.annotations ≡ true =
                  unfold is_managed_by_us_for_ingress in ground (arith, b) in
                let same_managed : is_managed_by_us r.annotations ≡ false =
                  ap (λ (x : HttpRoute). is_managed_by_us x.annotations)
                    (ok-injective r foreign here)
                  ∙ unmanaged in
                absurd (cc)
          ]
        where
          found : (p q : Text) → (p == n && q == m) ≡ true → routes.get_object s p q ≡ ok foreign
          found p q b =
              let ep : p ≡ n = (same_iff p n).0 (ground (arith, b)) in
              let eq : q ≡ m = (same_iff q m).0 (ground (arith, b)) in rw (ep, eq) h

      listed_others :
          (s : State) (existing : List HttpRoute) (namespace name : Text)
          → All (λ (r : HttpRoute). routes.get_object s r.namespace r.name ≡ ok r) existing
          → Kept s
          → All
              (λ (r : HttpRoute).
                is_managed_by_us_for_ingress r.annotations namespace name ≡ true
                → named routes lawful list_routes has_metric n m r ≡ false)
              existing
      listed_others s [] namespace name h k = tt
      listed_others s (r ∷ existing) namespace name h k =
          (listed_other s r namespace name h.0 k, listed_others s existing namespace name h.1 k)

      replaced-Kept :
          (ingress : Ingress) (existing desired : List HttpRoute) (s : State)
          → All (λ (r : HttpRoute). routes.get_object s r.namespace r.name ≡ ok r) existing
          → Kept s
          → Kept
              (and_then routes list_routes has_metric
                (delete_routes routes list_routes has_metric ingress existing s)
                (apply_routes routes list_routes has_metric desired)).state
      unfolding and_then
      replaced-Kept ingress existing desired s h k =
          after-kept routes lawful list_routes has_metric n m
            (delete_routes routes list_routes has_metric ingress existing s)
            (apply_routes routes list_routes has_metric desired) _ foreign
            (delete_routes-Kept ingress existing s
              (listed_others s existing ingress.namespace ingress.name h k) k)
            (apply_routes-Kept desired)

      apply_to-Kept :
          (ingress : Ingress) (existing desired : List HttpRoute) (s : State)
          → All (λ (r : HttpRoute). routes.get_object s r.namespace r.name ≡ ok r) existing
          → Kept s
          → Kept (apply_to routes list_routes has_metric ingress existing desired s).state
      unfolding apply_to
      apply_to-Kept ingress [] desired s h k = replaced-Kept ingress [] desired s h k
      apply_to-Kept ingress (r ∷ []) [] s h k = replaced-Kept ingress (r ∷ []) [] s h k
      apply_to-Kept ingress (r ∷ []) (d ∷ []) s h k = apply_http_route-Kept s d k
      apply_to-Kept ingress (r ∷ []) (d ∷ e ∷ desired) s h k =
          replaced-Kept ingress (r ∷ []) (d ∷ e ∷ desired) s h k
      apply_to-Kept ingress (r ∷ q ∷ existing) desired s h k =
          replaced-Kept ingress (r ∷ q ∷ existing) desired s h k

      apply_listed-Kept :
          (ingress : Ingress) (desired : List HttpRoute) (s : State)
          (items : Answer (List HttpRoute))
          → ((rs : List HttpRoute)
              → items ≡ ok rs
              → All (λ (r : HttpRoute). routes.get_object s r.namespace r.name ≡ ok r) rs)
          → Kept s
          → Kept (apply_listed routes list_routes has_metric ingress desired s items).state
      unfolding apply_listed fails
      apply_listed-Kept ingress desired s (err e) h k = k
      apply_listed-Kept ingress desired s (ok items) h k =
          apply_to-Kept ingress items desired s (h items refl) k

    -- What is listed is stored as it is listed.
    abbrev pub ListsStored : Type 0
    ListsStored =
        (s : State) (namespace : Text) (items : List HttpRoute)
        → list_routes s namespace ≡ ok items
        → All (λ (r : HttpRoute). routes.get_object s r.namespace r.name ≡ ok r) items

    prefixed-stored :
        ListsStored
        → (s : State) (namespace prefix : Text) (rs : List HttpRoute)
        → get_http_routes_with_prefix routes list_routes has_metric s namespace prefix ≡ ok rs
        → All (λ (r : HttpRoute). routes.get_object s r.namespace r.name ≡ ok r) rs
    unfolding get_http_routes_with_prefix
    prefixed-stored lists s namespace prefix rs h = go (list_routes s namespace) refl h
      where
        go :
            (a : Answer (List HttpRoute))
            → list_routes s namespace ≡ a
            → with_prefix routes list_routes has_metric namespace prefix a ≡ ok rs
            → All (λ (r : HttpRoute). routes.get_object s r.namespace r.name ≡ ok r) rs
        go (err e) p q = unfold with_prefix in cc
        go (ok items) p q =
            subst (All (λ (r : HttpRoute). routes.get_object s r.namespace r.name ≡ ok r))
              (ok-injective _ rs (unfold with_prefix in q))
              (All-keep _ _ items (lists s namespace items p))

    -- Whatever routes are desired, and whether it fails or not, apply_http_routes_atomic leaves a
    -- route that the operator does not manage as it was.
    pub apply_http_routes_atomic-foreign :
        ListsStored
        → (foreign : HttpRoute) → is_managed_by_us foreign.annotations ≡ false
        → (ingress : Ingress) (desired : List HttpRoute) (s : State)
        → routes.get_object s n m ≡ ok foreign
        → routes.get_object
            (apply_http_routes_atomic routes list_routes has_metric ingress desired s).state
            n
            m
          ≡ ok foreign
    unfolding apply_http_routes_atomic
    apply_http_routes_atomic-foreign lists foreign unmanaged ingress desired s =
        apply_listed-Kept foreign unmanaged ingress desired s _
          (prefixed-stored lists s ingress.namespace ingress.name)
