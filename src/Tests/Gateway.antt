-- ===== src/Tests/Gateway.antt =====
-- Gateways, HTTPRoutes and who manages them.
use ingress_operator.Prelude.{
  ◌≡◌, refl, true, not, ◌||◌, List, [], ◌∷◌, contains, All, Distinct, some, none, keep, some_of,
}
use ingress_operator.Text.{Text, codes, text_eq, same, trim_space, trim_left, trim_right, is_space}
use ingress_operator.Dict.{insert, IsMap, lookup, get, insertion_order}
use ingress_operator.Values.{split_sources}
use ingress_operator.Values.Comma.{IsValue}
use ingress_operator.Kube.{Ingress, Gateway, Listener, match_labels}
use ingress_operator.Translator.{
  managed_by_annotation, managed_by_value, source_annotation, qualified,
}
use ingress_operator.Translator.Gateway.{translate_to_gateway}
use ingress_operator.Translator.Gateway.Shared.{source_names}
use ingress_operator.Translator.Gateway.Annotated.{translate-is_managed_by_us_for_ingress}
use ingress_operator.Translator.Gateway.Listeners.{
  listener_names, contains-translate_to_gateway-listeners,
}
use ingress_operator.Translator.Route.{translate_to_http_route_with_canaries, route_hostnames}
use ingress_operator.Translator.Route.Weights.{
  Balanced, translate_to_http_route_with_canaries-Balanced,
}
use ingress_operator.Translator.Gateway.Tls.{find_tls_config_for_host}
use ingress_operator.Translator.Gateway.Shared.{
  SharedHostnameInfo, collect_shared_hostname_info, shared_listener_of,
}
use ingress_operator.Selectors.{admits}
use ingress_operator.Translator.Gateway.Shared.Namespaces.{serves, admits-shared_listener_of}
use ingress_operator.Translator.Route.Attached.{RefersTo, parent_refs-RefersTo}
use ingress_operator.GatewayUtils.{merge_listeners, merge_gateway_spec, remove_ingress_listeners}
use ingress_operator.GatewayUtils.Listeners.{
  find_listener, or_else, last_listener, merge_listeners_lem, remove_ingress_listeners-listeners,
}
use ingress_operator.GatewayUtils.Annotations.{merge_gateway_spec-sources}
use ingress_operator.Resource.{is_managed_by_us_for_ingress}
use ingress_operator.ReferenceGrant.{get_namespaces_with_tls}
use ingress_operator.ReferenceGrant.Namespaces.{needs_grant, get_namespaces_with_tls_lem}
use ingress_operator.Tests.Data.{config, exact_glob, shop, shop_canary}

abbrev shop_gateway : Gateway
shop_gateway = translate_to_gateway insertion_order exact_glob config shop

translate-is_managed_by_us_for_ingress_example :
    (is_managed_by_us_for_ingress shop_gateway.annotations (codes "ns") (codes "shop") ≡ true)
    × (is_managed_by_us_for_ingress
          (translate_to_http_route_with_canaries config shop (shop_canary ∷ [])).annotations
          (codes "ns")
          (codes "shop")
        ≡ true)
translate-is_managed_by_us_for_ingress_example =
    translate-is_managed_by_us_for_ingress insertion_order exact_glob config shop (shop_canary ∷ [])

abbrev both : List Ingress
both = shop ∷ shop_canary ∷ []

both-IsValue : All IsValue (source_names both)
unfolding source_names qualified contains trim_space trim_left trim_right is_space
both-IsValue = (
  record { lacks = refl; trimmed = refl; filled = refl },
  (record { lacks = refl; trimmed = refl; filled = refl }, tt),
)

contains-translate_to_gateway-listeners_example :
    contains (listener_names shop_gateway.listeners) (codes "a.new.io")
    ≡ contains (translate_to_http_route_with_canaries config shop []).hostnames (codes "a.new.io")
contains-translate_to_gateway-listeners_example =
    contains-translate_to_gateway-listeners config shop insertion_order exact_glob []
      (codes "a.new.io")

parent_refs-RefersTo_example :
    All (RefersTo shop_gateway) (translate_to_http_route_with_canaries config shop []).parent_refs
parent_refs-RefersTo_example = parent_refs-RefersTo insertion_order exact_glob config shop []

abbrev listener : Text → Listener
listener name = record {
  name = name;
  hostname = some name;
  port = 443;
  protocol = codes "HTTPS";
  selector = match_labels [];
  tls = none;
}

abbrev old_listeners : List Listener
old_listeners = listener (codes "a.new.io") ∷ listener (codes "b.new.io") ∷ []

merge_listeners_lem_example :
    Distinct (listener_names (merge_listeners insertion_order old_listeners shop_gateway.listeners))
    × ((n : Text)
        → find_listener n (merge_listeners insertion_order old_listeners shop_gateway.listeners)
          ≡ or_else (last_listener n shop_gateway.listeners) (last_listener n old_listeners))
merge_listeners_lem_example =
    merge_listeners_lem insertion_order old_listeners shop_gateway.listeners

abbrev old_gateway : Gateway
old_gateway = record {
  namespace = codes "gw";
  name = codes "shared";
  annotations =
      (managed_by_annotation, managed_by_value) ∷ (source_annotation, codes "ns/other") ∷ [];
  gateway_class_name = codes "nginx";
  infrastructure = none;
  listeners = old_listeners;
}

abbrev new_gateway : Gateway
new_gateway = record old_gateway {
  annotations =
      (managed_by_annotation, managed_by_value) ∷ (source_annotation, codes "ns/shop") ∷ [];
}

remove_ingress_listeners-listeners_example :
    (remove_ingress_listeners old_gateway shop config).listeners
    ≡ keep (λ l. not (contains (route_hostnames config shop.rules) l.name)) old_listeners
remove_ingress_listeners-listeners_example =
    remove_ingress_listeners-listeners old_gateway shop config

new_gateway-IsMap : IsMap new_gateway.annotations
unfolding lookup same
new_gateway-IsMap = (refl, (refl, tt))

new_gateway-managed : lookup managed_by_annotation new_gateway.annotations ≡ some managed_by_value
unfolding lookup same
new_gateway-managed = refl

merge_gateway_spec-sources_example :
    (get managed_by_annotation
        (merge_gateway_spec insertion_order old_gateway new_gateway).annotations
      ≡ managed_by_value)
    × ((s : Text)
        → contains
            (split_sources (
              get source_annotation
                (merge_gateway_spec insertion_order old_gateway new_gateway).annotations))
            s
          ≡ (contains (split_sources (get source_annotation old_gateway.annotations)) s
              || contains (split_sources (get source_annotation new_gateway.annotations)) s))
merge_gateway_spec-sources_example =
    merge_gateway_spec-sources insertion_order old_gateway new_gateway managed_by_value
      new_gateway-IsMap new_gateway-managed

shop-IsValue : IsValue (qualified (codes "ns") (codes "shop"))
unfolding qualified contains trim_space trim_left trim_right is_space
shop-IsValue = record { lacks = refl; trimmed = refl; filled = refl }

new_gateway-for_shop :
    is_managed_by_us_for_ingress new_gateway.annotations (codes "ns") (codes "shop") ≡ true
unfolding is_managed_by_us_for_ingress get lookup same qualified
new_gateway-for_shop = refl

get_namespaces_with_tls_lem_example :
    Distinct (get_namespaces_with_tls insertion_order config both)
    × ((n : Text)
        → contains (get_namespaces_with_tls insertion_order config both) n
          ≡ some_of (needs_grant config n) both)
get_namespaces_with_tls_lem_example = get_namespaces_with_tls_lem insertion_order config both

translate_to_http_route_with_canaries-Balanced_example :
    All Balanced (translate_to_http_route_with_canaries config shop (shop_canary ∷ [])).rules
translate_to_http_route_with_canaries-Balanced_example =
    translate_to_http_route_with_canaries-Balanced config shop (shop_canary ∷ [])

-- What both ingresses say of their hostname.
abbrev shop_info : SharedHostnameInfo
shop_info = record {
  tls_config = some (record { hosts = codes "a.old.io" ∷ []; secret_name = codes "cert" });
  namespaces = (codes "ns", true) ∷ [];
}

shop_info-collected :
    lookup (codes "a.old.io") (collect_shared_hostname_info both []) ≡ some shop_info
unfolding collect_shared_hostname_info lookup insert same contains find_tls_config_for_host
shop_info-collected = refl

admits-shared_listener_of_example :
    admits
      (shared_listener_of insertion_order config (codes "a.old.io", shop_info)).0.selector
      (codes "ns")
    ≡ some_of (serves (codes "a.old.io") (codes "ns")) both
admits-shared_listener_of_example =
    admits-shared_listener_of insertion_order config both (codes "a.old.io") (codes "ns")
      shop_info-collected
