-- ===== src/ReferenceGrant/Namespaces.antt =====
-- GetNamespacesWithTLS, and the sources of a new grant.
use ingress_operator.Prelude.{
  ◌≡◌, refl, Bool, true, false, ◌&&◌, ◌||◌, not, Option, none, some, List, [], ◌∷◌, ◌==◌, is_empty,
  contains, All, Distinct, arith, some_of,
}
use ingress_operator.Text.{Text, codes, text_eq, same, join}
use ingress_operator.Text.Split.{tokens-join}
use ingress_operator.Dict.{
  Dict, IsMap, lookup, insert, get, lookup-insert, insert-IsMap, contains-keys, keys-Distinct,
  MapOrder,
}
use ingress_operator.Kube.{Ingress}
use ingress_operator.Values.{split_sources}
use ingress_operator.Values.Comma.{IsValue}
use ingress_operator.Translator.{Config, source_annotation, qualified}
use ingress_operator.Translator.Gateway.Shared.{source_names}
use ingress_operator.Resource.{is_managed_by_us, is_managed_by_us_with_ingress}
use ingress_operator.Resource.Ownership.{is_managed_by_us_with_ingress_lem}
use ingress_operator.ReferenceGrant.{
  namespaces_with_tls, get_namespaces_with_tls, create_reference_grant,
}

-- An ingress of that namespace has TLS, and the gateway is elsewhere.
abbrev pub needs_grant : Config → Text → Ingress → Bool
needs_grant t namespace ingress =
    not (is_empty ingress.tls)
    && not (ingress.namespace == t.gateway_namespace)
    && ingress.namespace == namespace

found : Option Bool → Bool
found none = false
found (some b) = true

found-namespaces :
    (t : Config) (n : Text) (ingresses : List Ingress) (set : Dict Bool)
    → found (lookup n (namespaces_with_tls t ingresses set))
      ≡ (some_of (needs_grant t n) ingresses || found (lookup n set))
unfolding found namespaces_with_tls some_of
found-namespaces t n [] set = refl
found-namespaces t n (i ∷ ingresses) set = ground (
  arith,
  found-namespaces t n ingresses set,
  found-namespaces t n ingresses (insert i.namespace true set),
  lookup-insert n i.namespace true set,
)

namespaces-IsMap :
    (t : Config) (ingresses : List Ingress) (set : Dict Bool)
    → IsMap set
    → IsMap (namespaces_with_tls t ingresses set)
unfolding namespaces_with_tls
namespaces-IsMap t [] set h = h
namespaces-IsMap t (i ∷ ingresses) set h = ground (
  arith,
  namespaces-IsMap t ingresses set h,
  namespaces-IsMap t ingresses (insert i.namespace true set),
  insert-IsMap i.namespace true set h,
)

-- get_namespaces_with_tls lists each namespace once, and exactly those where some ingress has
-- TLS and the gateway is in another namespace, in whatever order the map is ranged over.
pub get_namespaces_with_tls_lem :
    (order : MapOrder) (t : Config) (ingresses : List Ingress)
    → Distinct (get_namespaces_with_tls order t ingresses)
      × ((n : Text)
          → contains (get_namespaces_with_tls order t ingresses) n
            ≡ some_of (needs_grant t n) ingresses)
unfolding get_namespaces_with_tls
get_namespaces_with_tls_lem order t ingresses =
    let set = namespaces_with_tls t ingresses [] in
    let map_set = namespaces-IsMap t ingresses [] tt in
    (
      keys-Distinct (order.arrange Bool set) (order.arrange-IsMap Bool set map_set),
      λ n.
          unfold found lookup in
          ground (
            arith,
            contains-keys n (order.arrange Bool set),
            order.lookup-arrange Bool set n map_set,
            found-namespaces t n ingresses [],
          ),
    )

create-sources :
    (t : Config) (namespace : Text) (ingresses : List Ingress)
    → get source_annotation (create_reference_grant t namespace ingresses).annotations
      ≡ join (source_names ingresses) (codes ",")
unfolding create_reference_grant get lookup same
create-sources t namespace ingresses = refl

create-managed :
    (t : Config) (namespace : Text) (ingresses : List Ingress)
    → is_managed_by_us (create_reference_grant t namespace ingresses).annotations ≡ true
unfolding create_reference_grant get lookup same is_managed_by_us
create-managed t namespace ingresses = refl

-- A new grant is managed with an ingress exactly if it was made for it, where the qualified
-- names of its ingresses are single values.
pub is_managed_by_us_with_ingress-create_reference_grant :
    (t : Config) (grant_namespace : Text) (ingresses : List Ingress) (namespace name : Text)
    → All IsValue (source_names ingresses)
    → is_managed_by_us_with_ingress
        (create_reference_grant t grant_namespace ingresses).annotations
        namespace
        name
      ≡ contains (source_names ingresses) (qualified namespace name)
unfolding split_sources
is_managed_by_us_with_ingress-create_reference_grant t gn ingresses namespace name h = rw (
  is_managed_by_us_with_ingress_lem,
  create-managed t gn ingresses,
  create-sources t gn ingresses,
  tokens-join b',' [] tt (unfold contains in refl) (source_names ingresses) h,
)
