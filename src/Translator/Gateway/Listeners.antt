-- ===== src/Translator/Gateway/Listeners.antt =====
-- The listeners of a Gateway and the hostnames of the HTTPRoute of the same ingress.
use ingress_operator.Prelude.{
  ◌≡◌, refl, ◌∙◌, sym, Bool, true, false, ◌||◌, Option, none, some, List, [], ◌∷◌, ◌==◌,
  if◌then◌else◌, arith, contains, some_of, some_of_ext, map, Bool-cases, inl, inr,
}
use ingress_operator.Text.{Text, text_eq, same_iff}
use ingress_operator.Dict.{
  Dict, IsMap, keys, lookup, insert, insert-IsMap, lookup-insert, contains-keys, MapOrder,
}
use ingress_operator.Kube.{Ingress, IngressRule, IngressTls, Listener}
use ingress_operator.Translator.{Config}
use ingress_operator.Translator.Hostname.{transform_hostname}
use ingress_operator.Translator.Gateway.Tls.{find_tls_config_for_host}
use ingress_operator.Translator.Gateway.{hostname_map, listeners_of, translate_to_gateway}
use ingress_operator.Translator.Route.{route_hostnames, translate_to_http_route_with_canaries}

abbrev pub listener_names : List Listener → List Text
listener_names = map (λ (l : Listener). l.name)

-- The hostnames of the rules, as they are.
unfoldable pub hosts : List IngressRule → List Text
hosts [] = []
hosts (rule ∷ rules) = let rest = hosts rules in if rule.host == [] then rest else rule.host ∷ rest

is_some {ℓ} : {A : Type ℓ} → Option A → Bool
is_some none = false
is_some (some a) = true

module _ (t : Config) (ingress : Ingress) where
  is_some-hostname_map :
      (k : Text) (rules : List IngressRule) (m : Dict (Option IngressTls))
      → is_some (lookup k (hostname_map ingress rules m))
        ≡ (contains (hosts rules) k || is_some (lookup k m))
  unfolding hostname_map hosts contains is_some
  is_some-hostname_map k [] m = refl
  is_some-hostname_map k (rule ∷ rules) m =
      let m' = insert rule.host (find_tls_config_for_host ingress.tls rule.host) m in
      ground (
        arith,
        is_some-hostname_map k rules m,
        is_some-hostname_map k rules m',
        lookup-insert k rule.host (find_tls_config_for_host ingress.tls rule.host) m,
        same_iff rule.host k,
      )

  hostname_map-IsMap :
      (rules : List IngressRule) (m : Dict (Option IngressTls))
      → IsMap m
      → IsMap (hostname_map ingress rules m)
  unfolding hostname_map
  hostname_map-IsMap [] m h = h
  hostname_map-IsMap (rule ∷ rules) m h =
      let m' = insert rule.host (find_tls_config_for_host ingress.tls rule.host) m in
      elim (Bool-cases (rule.host == [])) [
        | inl e ↦ rw e (hostname_map-IsMap rules m h)
        | inr e ↦ rw e (hostname_map-IsMap rules m' (insert-IsMap rule.host _ m h))
      ]

  -- A name that some hostname of a list is transformed to.
  from_some : Text → List Text → Bool
  from_some n = some_of (λ k. transform_hostname t k == n)

  contains-listener_names :
      (n : Text) (m : Dict (Option IngressTls))
      → contains (listener_names (listeners_of t ingress m).0) n ≡ from_some n (keys m)
  unfolding listeners_of from_some keys contains some_of
  contains-listener_names n [] = refl
  contains-listener_names n ((k, v) ∷ m) = ground (arith, contains-listener_names n m)

  contains-route_hostnames :
      (n : Text) (rules : List IngressRule)
      → contains (route_hostnames t rules) n ≡ from_some n (hosts rules)
  unfolding route_hostnames hosts from_some contains some_of
  contains-route_hostnames n [] = refl
  contains-route_hostnames n (rule ∷ rules) = ground (arith, contains-route_hostnames n rules)

  -- A Gateway has a listener of a name exactly if the HTTPRoute of the same ingress has that
  -- hostname, in whatever order the hostnames are ranged over.
  pub contains-translate_to_gateway-listeners :
      (order : MapOrder) (glob : Text → Text → Option Bool) (canaries : List Ingress) (n : Text)
      → contains (listener_names (translate_to_gateway order glob t ingress).listeners) n
        ≡ contains (translate_to_http_route_with_canaries t ingress canaries).hostnames n
  unfolding translate_to_gateway translate_to_http_route_with_canaries
  contains-translate_to_gateway-listeners order glob canaries n =
      let m = hostname_map ingress ingress.rules [] in
      contains-listener_names n (order.arrange (Option IngressTls) m)
      ∙ unfold from_some in
        some_of_ext _ (keys (order.arrange (Option IngressTls) m)) (hosts ingress.rules) (λ k.
          unfold is_some lookup in
          ground (
            arith,
            contains-keys k (order.arrange (Option IngressTls) m),
            order.lookup-arrange (Option IngressTls) m k (hostname_map-IsMap ingress.rules [] tt),
            is_some-hostname_map k ingress.rules [],
          ))
        ∙ sym (contains-route_hostnames n ingress.rules)
