-- ===== src/Translator/Gateway/Shared/Namespaces.antt =====
-- Which namespaces the listeners of a shared Gateway admit.
use ingress_operator.Prelude.{
  ◌≡◌, refl, subst, ◌∙◌, sym, ap, Bool, true, false, ◌&&◌, ◌||◌, Option, none, some, List, [], ◌∷◌,
  ◌==◌, arith, contains, some_of, Bool-cases, inl, inr,
}
use ingress_operator.Text.{Text, text_eq, same_iff}
use ingress_operator.Dict.{
  Dict, IsMap, keys, lookup, insert, lookup-insert, insert-IsMap, contains-keys, MapOrder,
}
use ingress_operator.Selectors.{admits, admits-match_in}
use ingress_operator.Kube.{Ingress, IngressRule, IngressTls}
use ingress_operator.Translator.{Config}
use ingress_operator.Translator.Gateway.Tls.{find_tls_config_for_host}
use ingress_operator.Translator.Gateway.Listeners.{hosts}
use ingress_operator.Translator.Gateway.Shared.{
  SharedHostnameInfo, no_info, known, add_namespace, collect_rules, collect_shared_hostname_info,
  insert_sorted, sort_strings, shared_listener_of,
}

contains-insert_sorted :
    (s t : Text) (ts : List Text) → contains (insert_sorted s ts) t ≡ (s == t || contains ts t)
unfolding insert_sorted contains
contains-insert_sorted s t [] = ground arith
contains-insert_sorted s t (u ∷ ts) = ground (arith, contains-insert_sorted s t ts)

pub contains-sort_strings :
    (ts : List Text) (t : Text) → contains (sort_strings ts) t ≡ contains ts t
unfolding sort_strings contains
contains-sort_strings [] t = refl
contains-sort_strings (s ∷ ts) t =
    ground (arith, contains-insert_sorted s t (sort_strings ts), contains-sort_strings ts t)

listed_in : Option Bool → Bool
listed_in none = false
listed_in (some b) = true

-- Whether a namespace is noted for a hostname.
noted : Text → Text → Dict SharedHostnameInfo → Bool
noted k n m = listed_in (lookup n (known (lookup k m)).namespaces)

-- An ingress of that namespace has a rule for the hostname.
pub serves : Text → Text → Ingress → Bool
serves k n ingress = ingress.namespace == n && contains (hosts ingress.rules) k

noted-collect_rules :
    (k n : Text) (ingress : Ingress) (rules : List IngressRule) (m : Dict SharedHostnameInfo)
    → noted k n (collect_rules ingress rules m)
      ≡ ((ingress.namespace == n && contains (hosts rules) k) || noted k n m)
unfolding noted collect_rules hosts contains known listed_in add_namespace
noted-collect_rules k n ingress [] m = ground arith
noted-collect_rules k n ingress (rule ∷ rules) m =
    let info =
      add_namespace ingress.namespace (find_tls_config_for_host ingress.tls rule.host)
        (known (lookup rule.host m)) in
    ground (
      arith,
      noted-collect_rules k n ingress rules m,
      noted-collect_rules k n ingress rules (insert rule.host info m),
      lookup-insert k rule.host info m,
      lookup-insert n ingress.namespace true (known (lookup rule.host m)).namespaces,
      same_iff rule.host k,
    )

noted-collect :
    (k n : Text) (ingresses : List Ingress) (m : Dict SharedHostnameInfo)
    → noted k n (collect_shared_hostname_info ingresses m)
      ≡ (some_of (serves k n) ingresses || noted k n m)
unfolding collect_shared_hostname_info some_of serves
noted-collect k n [] m = refl
noted-collect k n (ingress ∷ ingresses) m = ground (
  arith,
  noted-collect k n ingresses (collect_rules ingress ingress.rules m),
  noted-collect_rules k n ingress ingress.rules m,
)

-- The namespaces of every hostname are a map.
abbrev NamespaceMaps : Dict SharedHostnameInfo → Type 0
NamespaceMaps m = (k : Text) → IsMap (known (lookup k m)).namespaces

insert-NamespaceMaps :
    (host namespace : Text) (tls : Option IngressTls) (m : Dict SharedHostnameInfo)
    → NamespaceMaps m
    → NamespaceMaps (insert host (add_namespace namespace tls (known (lookup host m))) m)
unfolding known add_namespace
insert-NamespaceMaps host namespace tls m h k =
    rw (lookup-insert k host (add_namespace namespace tls (known (lookup host m))) m)
      (elim (Bool-cases (host == k)) [
        | inl e ↦ rw e (insert-IsMap namespace true _ (h host))
        | inr e ↦ rw e (h k)
      ])

collect_rules-NamespaceMaps :
    (ingress : Ingress) (rules : List IngressRule) (m : Dict SharedHostnameInfo)
    → NamespaceMaps m
    → NamespaceMaps (collect_rules ingress rules m)
unfolding collect_rules
collect_rules-NamespaceMaps ingress [] m h = h
collect_rules-NamespaceMaps ingress (rule ∷ rules) m h = elim (Bool-cases (rule.host == [])) [
  | inl e ↦ rw e (collect_rules-NamespaceMaps ingress rules m h)
  | inr e ↦ rw e (
      collect_rules-NamespaceMaps ingress rules _
        (insert-NamespaceMaps rule.host ingress.namespace _ m h))
]

collect-NamespaceMaps :
    (ingresses : List Ingress) (m : Dict SharedHostnameInfo)
    → NamespaceMaps m
    → NamespaceMaps (collect_shared_hostname_info ingresses m)
unfolding collect_shared_hostname_info
collect-NamespaceMaps [] m h = h
collect-NamespaceMaps (ingress ∷ ingresses) m h =
    collect-NamespaceMaps ingresses _ (collect_rules-NamespaceMaps ingress ingress.rules m h)

-- The listener of a hostname of a shared Gateway admits a namespace exactly if some ingress of
-- that namespace has a rule for the hostname, in whatever order the maps are ranged over.
pub admits-shared_listener_of :
    (order : MapOrder) (t : Config) (ingresses : List Ingress) (hostname n : Text)
    {info : SharedHostnameInfo}
    → lookup hostname (collect_shared_hostname_info ingresses []) ≡ some info
    → admits (shared_listener_of order t (hostname, info)).0.selector n
      ≡ some_of (serves hostname n) ingresses
unfolding shared_listener_of noted listed_in known no_info lookup
admits-shared_listener_of order t ingresses hostname n {info} h =
    let is_map : IsMap info.namespaces =
      subst (λ o. IsMap (known o).namespaces) h
        (collect-NamespaceMaps ingresses [] (λ k. tt) hostname) in
    let listed : listed_in (lookup n info.namespaces)
        ≡ (some_of (serves hostname n) ingresses || false) =
      ap (λ o. listed_in (lookup n (known o).namespaces)) (sym h)
      ∙ noted-collect hostname n ingresses [] in
    admits-match_in (sort_strings (keys (order.arrange Bool info.namespaces))) n
    ∙ contains-sort_strings (keys (order.arrange Bool info.namespaces)) n
    ∙ ground (
      arith,
      contains-keys n (order.arrange Bool info.namespaces),
      order.lookup-arrange Bool info.namespaces n is_map,
      listed,
    )
