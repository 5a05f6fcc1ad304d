-- ===== src/RouteController/Kept.antt =====
-- Which hostnames have a listener after a reconciliation.
use ingress_operator.Prelude.{
  ◌≡◌, refl, sym, ap, ◌∙◌, Bool, true, false, not, ◌&&◌, ◌||◌, Option, none, some, List, [], ◌∷◌,
  ◌++◌, ◌==◌, if◌then◌else◌, contains, keep, arith, Bool-cases, inl, inr,
}
use ingress_operator.Text.{Text, text_eq, same_iff}
use ingress_operator.Dict.{Dict, IsMap, keys, lookup, contains-keys, MapOrder}
use ingress_operator.Kube.{Listener, SecretRef}
use ingress_operator.Translator.Gateway.Shared.{sort_strings}
use ingress_operator.RouteController.Allowed.{
  update_listener_namespaces, update_listener_tls, create_listener_with_namespaces,
}
use ingress_operator.RouteController.Listeners.{
  serves_hostname, find_listener, change_first, wanted, updated_listener, reconcile_hostname,
  hostname_found, reconcile_hostnames, reconcile_listeners_to_desired_state,
}

-- Something was found.
abbrev pub is_found : Option Listener → Bool
is_found none = false
is_found (some l) = true

-- Some listener has the hostname.
abbrev pub has_listener : Text → List Listener → Bool
has_listener x ls = is_found (find_listener x ls)

pub serving :
    (x : Text) (o : Option Text)
    → (x == []) ≡ false
    → serves_hostname x o ≡ true
    → elim o as (λ _. Text) [ none ↦ [] | some h ↦ h ] ≡ x
unfolding serves_hostname
serving x none h e = cc
serving x (some y) h e = (same_iff y x).0 e

has_listener-keep :
    (x : Text) (state : Dict (Dict Bool)) (ls : List Listener)
    → (x == []) ≡ false
    → has_listener x (keep (wanted state) ls) ≡ (contains (keys state) x && has_listener x ls)
unfolding keep find_listener
has_listener-keep x state [] h = ground arith
has_listener-keep x state (l ∷ ls) h = elim (Bool-cases (serves_hostname x l.hostname)) [
  | inl b ↦
      let w : wanted state l ≡ contains (keys state) x =
        unfold wanted in ap (contains (keys state)) (serving x l.hostname h b) in
      elim (Bool-cases (contains (keys state) x)) [
        | inl c ↦ rw (w, c) (rw b refl)
        | inr c ↦ rw (w, c) (has_listener-keep x state ls h ∙ rw c refl)
      ]
  | inr b ↦ elim (Bool-cases (wanted state l)) [
    | inl c ↦ rw c (rw b (has_listener-keep x state ls h))
    | inr c ↦ rw (c, b) (has_listener-keep x state ls h)
  ]
]

has_listener-change_first :
    (x hostname : Text) (change : Listener → Listener) (ls : List Listener)
    → ((l : Listener) → (change l).hostname ≡ l.hostname)
    → has_listener x (change_first change hostname ls) ≡ has_listener x ls
unfolding find_listener change_first
has_listener-change_first x hostname change [] h = refl
has_listener-change_first x hostname change (l ∷ ls) h =
    elim (Bool-cases (serves_hostname hostname l.hostname)) [
      | inl b ↦ rw b (
          changed (serves_hostname x l.hostname) (serves_hostname x (change l).hostname)
            (ap (serves_hostname x) (h l)))
      | inr b ↦ rw b (
          same_head (serves_hostname x l.hostname)
            (has_listener-change_first x hostname change ls h))
    ]
  where
    changed :
        (c c' : Bool)
        → c' ≡ c
        → is_found (if c' then some (change l) else find_listener x ls)
          ≡ is_found (if c then some l else find_listener x ls)
    changed true c' e = rw e refl
    changed false c' e = rw e refl

    same_head :
        (c : Bool)
        → is_found (find_listener x (change_first change hostname ls))
          ≡ is_found (find_listener x ls)
        → is_found (if c then some l else find_listener x (change_first change hostname ls))
          ≡ is_found (if c then some l else find_listener x ls)
    same_head true e = refl
    same_head false e = e

has_listener-append :
    (x : Text) (ls : List Listener) (l : Listener)
    → has_listener x (ls ++ (l ∷ [])) ≡ (has_listener x ls || serves_hostname x l.hostname)
unfolding find_listener
has_listener-append x [] l = elim (Bool-cases (serves_hostname x l.hostname)) [
  | inl b ↦ rw b refl
  | inr b ↦ rw b refl
]
has_listener-append x (k ∷ ls) l = elim (Bool-cases (serves_hostname x k.hostname)) [
  | inl b ↦ rw b refl
  | inr b ↦ rw b (has_listener-append x ls l)
]

module _ (order : MapOrder) (desired_tls : Dict (List SecretRef)) (tls_unknown : List Text) where
  pub updated_listener-hostname :
      (hostname : Text) (namespaces : List Text) (l : Listener)
      → (updated_listener order desired_tls tls_unknown hostname namespaces l).0.hostname
        ≡ l.hostname
  unfolding updated_listener update_listener_tls update_listener_namespaces
  updated_listener-hostname hostname namespaces l = ground arith

  has_listener-hostname_found :
      (x hostname : Text) (namespaces : List Text) (ls : List Listener) (updated : Bool)
      (o : Option Listener)
      → find_listener hostname ls ≡ o
      → has_listener x
          (hostname_found order desired_tls tls_unknown hostname namespaces ls updated o).0
        ≡ (has_listener x ls || (hostname == x && not (contains tls_unknown x)))
  unfolding hostname_found
  has_listener-hostname_found x hostname namespaces ls updated (some l) e =
      has_listener-change_first x hostname _ ls (updated_listener-hostname hostname namespaces)
      ∙ already (hostname == x) refl
    where
      already :
          (b : Bool)
          → (hostname == x) ≡ b
          → has_listener x ls ≡ (has_listener x ls || (b && not (contains tls_unknown x)))
      already true q = rw (← (same_iff hostname x).0 q, e) refl
      already false q = ground arith
  has_listener-hostname_found x hostname namespaces ls updated none e =
      elim (Bool-cases (contains tls_unknown hostname)) [
        | inl b ↦ rw b (unknown (hostname == x) refl b)
        | inr b ↦ rw b (
            has_listener-append x ls
              (create_listener_with_namespaces hostname namespaces (lookup hostname desired_tls))
            ∙ unfold serves_hostname create_listener_with_namespaces in
              (added (hostname == x) refl b))
      ]
    where
      unknown :
          (b : Bool)
          → (hostname == x) ≡ b
          → contains tls_unknown hostname ≡ true
          → has_listener x ls ≡ (has_listener x ls || (b && not (contains tls_unknown x)))
      unknown true q c = rw (← (same_iff hostname x).0 q, c) (ground arith)
      unknown false q c = ground arith

      added :
          (b : Bool)
          → (hostname == x) ≡ b
          → contains tls_unknown hostname ≡ false
          → (has_listener x ls || b) ≡ (has_listener x ls || (b && not (contains tls_unknown x)))
      added true q c = rw (← (same_iff hostname x).0 q, c) refl
      added false q c = refl

  has_listener-reconcile_hostnames :
      (x : Text) (state : Dict (Dict Bool)) (so_far : List Listener × Bool)
      → has_listener x (reconcile_hostnames order desired_tls tls_unknown state so_far).0
        ≡ (has_listener x so_far.0 || (contains (keys state) x && not (contains tls_unknown x)))
  unfolding reconcile_hostnames keys contains
  has_listener-reconcile_hostnames x [] so_far = ground arith
  has_listener-reconcile_hostnames x ((hostname, namespaces) ∷ state) (ls, updated) =
      let names = sort_strings (keys (order.arrange Bool namespaces)) in
      has_listener-reconcile_hostnames x state
        (reconcile_hostname order desired_tls tls_unknown hostname names (ls, updated))
      ∙ (unfold reconcile_hostname in
          rw (has_listener-hostname_found x hostname names ls updated _ refl) (
            join_cases (has_listener x ls) (hostname == x) (not (contains tls_unknown x))
              (contains (keys state) x)))
    where
      join_cases : (a b c d : Bool) → ((a || (b && c)) || (d && c)) ≡ (a || ((b || d) && c))
      join_cases a b c d = ground arith

  -- After a reconciliation a hostname that is not empty has a listener exactly if it is desired, and
  -- had one before or has a known TLS configuration, in whatever order the state is ranged over.
  pub has_listener-reconcile_listeners_to_desired_state :
      (listeners : List Listener) (state : Dict (Dict Bool)) (x : Text)
      → IsMap state
      → (x == []) ≡ false
      → has_listener x
          (reconcile_listeners_to_desired_state order desired_tls tls_unknown listeners state).0
        ≡ (contains (keys state) x && (has_listener x listeners || not (contains tls_unknown x)))
  unfolding reconcile_listeners_to_desired_state
  has_listener-reconcile_listeners_to_desired_state listeners state x h e =
      let arranged = order.arrange (Dict Bool) state in
      let keys_kept : contains (keys arranged) x ≡ contains (keys state) x =
        contains-keys x arranged
        ∙ rw (order.lookup-arrange (Dict Bool) state x h) (sym (contains-keys x state)) in
      has_listener-reconcile_hostnames x arranged _
      ∙ rw (has_listener-keep x state listeners e, keys_kept)
          (join_cases (contains (keys state) x) (has_listener x listeners)
            (not (contains tls_unknown x)))
    where
      join_cases : (a b c : Bool) → ((a && b) || (a && c)) ≡ (a && (b || c))
      join_cases a b c = ground arith
