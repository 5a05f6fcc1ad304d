-- ===== src/RouteController/Settled.antt =====
-- Which namespaces the listeners admit after a reconciliation.
use ingress_operator.Prelude.{
  ◌≡◌, refl, sym, ap, subst, ◌∙◌, Bool, true, false, not, ◌||◌, Option, none, some, List, [], ◌∷◌,
  ◌==◌, contains, keep, some_of, arith, Bool-cases, inl, inr,
}
use ingress_operator.Text.{Text, text_eq, same_iff}
use ingress_operator.Text.Laws.{same_refl}
use ingress_operator.Dict.{Dict, IsMap, keys, lookup, contains-keys, MapOrder}
use ingress_operator.Kube.{Listener, SecretRef}
use ingress_operator.RouteController.Allowed.{
  update_listener_namespaces, update_listener_tls, create_listener_with_namespaces,
}
use ingress_operator.RouteController.Listeners.{
  serves_hostname, find_listener, updated_listener, hostname_found, reconcile_hostname,
  reconcile_hostnames, wanted, reconcile_listeners_to_desired_state,
}
use ingress_operator.Selectors.{admits}
use ingress_operator.Translator.Gateway.Shared.{sort_strings}
use ingress_operator.Translator.Gateway.Shared.Namespaces.{contains-sort_strings}
use ingress_operator.RouteController.{known_namespaces}
use ingress_operator.RouteController.Admitted.{
  Made, made_selector, AdmitsOnly, by_expression, update_listener_namespaces-AdmitsOnly,
}
use ingress_operator.RouteController.Kept.{is_found, has_listener, updated_listener-hostname}
use ingress_operator.RouteController.Found.{
  find_listener-append, find_listener-append_new, find_listener-change_first,
  find_listener-change_first_same, find_listener-keep,
}

-- The listener that is found, if there is one, has a selector that the operator makes.
abbrev pub IsMadeFirst : Option Listener → Type 0
IsMadeFirst none = Unit
IsMadeFirst (some l) = (made : Made) × (l.selector ≡ made_selector made)

-- The first listener of the hostname admits the namespaces and no other.
pub record ServesOnly (namespaces : List Text) (x : Text) (ls : List Listener) : Type 0 where
  pub listener : Listener
  pub is_first : find_listener x ls ≡ some listener
  pub admits_only : AdmitsOnly namespaces listener.selector

served :
    {namespaces : List Text} {x : Text} {ls ls' : List Listener}
    → find_listener x ls' ≡ find_listener x ls
    → ServesOnly namespaces x ls
    → ServesOnly namespaces x ls'
served e s = record {
  listener = s.listener;
  is_first = e ∙ s.is_first;
  admits_only = s.admits_only;
}

module _ (order : MapOrder) (desired_tls : Dict (List SecretRef)) (tls_unknown : List Text) where
  updated_listener-AdmitsOnly :
      (x : Text) (namespaces : List Text) (l : Listener)
      → IsMadeFirst (some l)
      → AdmitsOnly namespaces
          (updated_listener order desired_tls tls_unknown x namespaces l).0.selector
  unfolding updated_listener update_listener_tls
  updated_listener-AdmitsOnly x namespaces l (made, e) =
      let unchanged : (updated_listener order desired_tls tls_unknown x namespaces l).0.selector
          ≡ (update_listener_namespaces namespaces l).0.selector =
        ground arith in
      rw unchanged (update_listener_namespaces-AdmitsOnly namespaces made l e)

  hostname_found-ServesOnly :
      (x : Text) (namespaces : List Text) (ls : List Listener) (updated : Bool)
      (o : Option Listener)
      → find_listener x ls ≡ o
      → IsMadeFirst o
      → (is_found o || not (contains tls_unknown x)) ≡ true
      → ServesOnly namespaces x
          (hostname_found order desired_tls tls_unknown x namespaces ls updated o).0
  unfolding hostname_found
  hostname_found-ServesOnly x namespaces ls updated (some l) e m k = record {
    listener = (updated_listener order desired_tls tls_unknown x namespaces l).0;
    is_first =
        find_listener-change_first_same _
          (updated_listener-hostname order desired_tls tls_unknown x namespaces) x ls
        ∙ rw e refl;
    admits_only = updated_listener-AdmitsOnly x namespaces l m;
  }
  hostname_found-ServesOnly x namespaces ls updated none e m k =
      let known : contains tls_unknown x ≡ false = ground arith in
      rw known (record {
        listener = create_listener_with_namespaces x namespaces (lookup x desired_tls);
        is_first =
            find_listener-append_new x ls _ e
              (unfold serves_hostname create_listener_with_namespaces in same_refl x);
        admits_only = unfold create_listener_with_namespaces in by_expression namespaces;
      })

  find_listener-hostname_found :
      (x h : Text) (namespaces : List Text) (ls : List Listener) (updated : Bool)
      (o : Option Listener)
      → (h == x) ≡ false
      → find_listener x (hostname_found order desired_tls tls_unknown h namespaces ls updated o).0
        ≡ find_listener x ls
  unfolding hostname_found
  find_listener-hostname_found x h namespaces ls updated (some l) ne =
      find_listener-change_first _
        (updated_listener-hostname order desired_tls tls_unknown h namespaces) x h ls ne
  find_listener-hostname_found x h namespaces ls updated none ne =
      elim (Bool-cases (contains tls_unknown h)) [
        | inl b ↦ rw b refl
        | inr b ↦ rw b (
            find_listener-append x ls _
              (unfold serves_hostname create_listener_with_namespaces in ne))
      ]

  find_listener-reconcile_hostnames :
      (x : Text) (state : Dict (Dict Bool)) (ls : List Listener) (updated : Bool)
      → lookup x state ≡ none
      → find_listener x (reconcile_hostnames order desired_tls tls_unknown state (ls, updated)).0
        ≡ find_listener x ls
  unfolding reconcile_hostnames reconcile_hostname lookup
  find_listener-reconcile_hostnames x [] ls updated e = refl
  find_listener-reconcile_hostnames x ((h, namespaces) ∷ state) ls updated e =
      elim (Bool-cases (h == x)) [
        | inl b ↦ ground arith
        | inr b ↦
            find_listener-reconcile_hostnames x state _ _ (ground arith)
            ∙ find_listener-hostname_found x h _ ls updated _ b
      ]

  reconcile_hostnames-ServesOnly :
      (x : Text) (namespaces : Dict Bool) (state : Dict (Dict Bool)) (ls : List Listener)
      (updated : Bool)
      → IsMap state
      → lookup x state ≡ some namespaces
      → IsMadeFirst (find_listener x ls)
      → (has_listener x ls || not (contains tls_unknown x)) ≡ true
      → ServesOnly
          (sort_strings (keys (order.arrange Bool namespaces)))
          x
          (reconcile_hostnames order desired_tls tls_unknown state (ls, updated)).0
  unfolding reconcile_hostnames reconcile_hostname lookup
  reconcile_hostnames-ServesOnly x namespaces [] ls updated h e m k = ground arith
  reconcile_hostnames-ServesOnly x namespaces ((j, ns) ∷ state) ls updated h e m k =
      elim (Bool-cases (j == x)) [
        | inl b ↦
            let p : j ≡ x = (same_iff j x).0 b in
            let q : ns ≡ namespaces =
              unfold known_namespaces in ap known_namespaces {x = some ns} (sym (rw b refl) ∙ e) in
            rw (q, p)
              (served
                (find_listener-reconcile_hostnames x state _ _
                  (ap (λ z. lookup z state) (sym p) ∙ h.0))
                (hostname_found-ServesOnly x _ ls updated _ refl m k))
        | inr b ↦
            let f =
              find_listener-hostname_found x j (sort_strings (keys (order.arrange Bool ns))) ls
                updated (find_listener j ls) b in
            reconcile_hostnames-ServesOnly x namespaces state _ _ h.1 (sym (rw b refl) ∙ e)
              (subst IsMadeFirst (sym f) m)
              (ap (λ o. is_found o || not (contains tls_unknown x)) f ∙ k)
      ]

  -- After a reconciliation with a desired state that is a map, the first listener of a hostname that
  -- is desired, is not empty, and had a listener whose selector the operator made or else none and a
  -- known TLS configuration, admits the namespaces desired for it and no other.
  pub reconcile_listeners_to_desired_state-admits :
      (listeners : List Listener) (state : Dict (Dict Bool)) (x : Text) (namespaces : Dict Bool)
      → IsMap state
      → IsMap namespaces
      → lookup x state ≡ some namespaces
      → (x == []) ≡ false
      → IsMadeFirst (find_listener x listeners)
      → (has_listener x listeners || not (contains tls_unknown x)) ≡ true
      → (l : Listener) × (find_listener x
            (reconcile_listeners_to_desired_state order desired_tls tls_unknown listeners state).0
          ≡ some l)
        × ((n : Text) → admits l.selector n ≡ contains (keys namespaces) n)
  unfolding reconcile_listeners_to_desired_state
  reconcile_listeners_to_desired_state-admits listeners state x namespaces h hn e ne m k =
      let f = find_listener-keep x state listeners ne (contains-keys x state ∙ rw e refl) in
      let s =
        reconcile_hostnames-ServesOnly x namespaces (order.arrange (Dict Bool) state)
          (keep (wanted state) listeners) (some_of (λ l. not (wanted state l)) listeners)
          (order.arrange-IsMap (Dict Bool) state h) (order.lookup-arrange (Dict Bool) state x h ∙ e)
          (subst IsMadeFirst (sym f) m)
          (ap (λ o. is_found o || not (contains tls_unknown x)) f ∙ k) in
      let names : (n : Text)
          → contains (sort_strings (keys (order.arrange Bool namespaces))) n
            ≡ contains (keys namespaces) n =
        λ n.
          contains-sort_strings (keys (order.arrange Bool namespaces)) n
          ∙ contains-keys n (order.arrange Bool namespaces)
          ∙ rw (order.lookup-arrange Bool namespaces n hn) (sym (contains-keys n namespaces)) in
      (s.listener, s.is_first, λ n. s.admits_only.admitted n ∙ names n)
