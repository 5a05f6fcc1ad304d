-- ===== src/HttpRoutes/Ports.antt =====
-- ResolveNamedPorts leaves no port 0, and changes nothing else.
use ingress_operator.Prelude.{
  ℕ, ◌≡◌, refl, false, ◌==◌, nat_eq, Option, none, some, List, [], ◌∷◌, map, arith, Bool-cases, inl,
  inr, All,
}
use ingress_operator.Text.{Text, text_eq}
use ingress_operator.Kube.{Ingress, HttpRoute, RouteRule, BackendRef, Service, ServicePort}
use ingress_operator.Client.{Answer, ok, err}
use ingress_operator.HttpRoutes.{
  is_placeholder, fallback_port, port_named, resolve_service_port, find_port_name_in_ingresses,
  named_port, resolve_backend, resolve_rule, resolve_named_ports,
}

-- Two lists of one length, related element by element.
abbrev pub Pairwise {ℓ} : {A : Type ℓ} → (A → A → Type 0) → List A → List A → Type 0
Pairwise R [] [] = Unit
Pairwise R [] (y ∷ ys) = ⊥
Pairwise R (x ∷ xs) [] = ⊥
Pairwise R (x ∷ xs) (y ∷ ys) = R x y × Pairwise R xs ys

Pairwise-map {ℓ} :
    {A : Type ℓ} (R : A → A → Type 0) (f : A → A)
    → ((x : A) → R x (f x))
    → (xs : List A) → Pairwise R xs (map f xs)
Pairwise-map R f h [] = tt
Pairwise-map R f h (x ∷ xs) = (h x, Pairwise-map R f h xs)

-- The new backend is the old one with a port that is not 0; it is the old one if that had one.
abbrev pub IsResolved : BackendRef → BackendRef → Type 0
IsResolved old new =
    (record new { port = old.port } ≡ old)
    × (is_placeholder new.port ≡ false)
    × (is_placeholder old.port ≡ false → new ≡ old)

-- The rules differ in their backends only.
abbrev pub RuleIsResolved : RouteRule → RouteRule → Type 0
RuleIsResolved old new =
    (record new { backend_refs = old.backend_refs } ≡ old)
    × Pairwise IsResolved old.backend_refs new.backend_refs

-- The API server gives every port of a Service a number that is not 0.
abbrev pub IsNumbered : Service → Type 0
IsNumbered service = All (λ (port : ServicePort). (port.port == 0) ≡ false) service.ports

-- What is found is no port 0.
abbrev NonZero : Option ℕ → Type 0
NonZero none = Unit
NonZero (some port) = (port == 0) ≡ false

port_named-NonZero :
    (port_name : Text) (ports : List ServicePort)
    → All (λ (port : ServicePort). (port.port == 0) ≡ false) ports
    → NonZero (port_named port_name ports)
unfolding port_named
port_named-NonZero port_name [] h = tt
port_named-NonZero port_name (p ∷ ports) h = elim (Bool-cases (p.name == port_name)) [
  | inl b ↦ rw b h.0
  | inr b ↦ rw b (port_named-NonZero port_name ports h.1)
]

module _ (get_service : Text → Text → Answer Service)
    (numbered : (namespace name : Text) (service : Service)
      → get_service namespace name ≡ ok service
      → IsNumbered service) where
  resolve_service_port-NonZero :
      (namespace service_name port_name : Text)
      → NonZero (resolve_service_port get_service namespace service_name port_name)
  unfolding resolve_service_port
  resolve_service_port-NonZero namespace service_name port_name =
      go (get_service namespace service_name) refl
    where
      go :
          (a : Answer Service)
          → get_service namespace service_name ≡ a
          → NonZero (elim a as (λ _. Option ℕ) [
            | err e ↦ none
            | ok service ↦ port_named port_name service.ports
          ])
      go (err e) h = tt
      go (ok service) h =
          port_named-NonZero port_name service.ports (numbered namespace service_name service h)

  named_port_positive :
      (namespace : Text) (sources : List Ingress) (service_name : Text)
      → (named_port get_service namespace sources service_name == 0) ≡ false
  unfolding named_port
  named_port_positive namespace sources service_name =
      elim (Bool-cases (find_port_name_in_ingresses sources service_name == [])) [
        | inl b ↦ rw b refl
        | inr b ↦ rw b (
            go _ (
              resolve_service_port-NonZero namespace service_name
                (find_port_name_in_ingresses sources service_name)))
      ]
    where
      go :
          (o : Option ℕ)
          → NonZero o
          → (elim o as (λ _. ℕ) [ none ↦ fallback_port | some port ↦ port ] == 0) ≡ false
      go none h = refl
      go (some port) h = h

  resolve_backend-IsResolved :
      (namespace : Text) (sources : List Ingress) (ref : BackendRef)
      → IsResolved ref (resolve_backend get_service namespace sources ref)
  unfolding resolve_backend
  resolve_backend-IsResolved namespace sources ref = elim (Bool-cases (is_placeholder ref.port)) [
    | inl b ↦ rw b (
      refl,
      (unfold is_placeholder in named_port_positive namespace sources ref.name),
      λ h. absurd (ground (arith, h)),
    )
    | inr b ↦ rw b (refl, b, λ h. refl)
  ]

  -- Where every port of a Service has a number that is not 0, resolve_named_ports leaves no backend
  -- with port 0, keeps every backend that had another port or none, and changes nothing but ports.
  pub resolve_named_ports-RuleIsResolved :
      (ingress : Ingress) (route : HttpRoute) (extra : List Ingress)
      → (record (resolve_named_ports get_service ingress route extra) { rules = route.rules }
          ≡ route)
        × Pairwise RuleIsResolved route.rules
            (resolve_named_ports get_service ingress route extra).rules
  unfolding resolve_named_ports
  resolve_named_ports-RuleIsResolved ingress route extra = (
    refl,
    Pairwise-map RuleIsResolved (resolve_rule get_service ingress.namespace (ingress ∷ extra))
        (λ rule.
          unfold resolve_rule in
          (
            refl,
            Pairwise-map IsResolved
                (resolve_backend get_service ingress.namespace (ingress ∷ extra))
                (resolve_backend-IsResolved ingress.namespace (ingress ∷ extra)) rule.backend_refs,
          ))
        route.rules,
  )
