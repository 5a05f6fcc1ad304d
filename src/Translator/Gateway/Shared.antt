-- ===== src/Translator/Gateway/Shared.antt =====
-- TranslateMultipleToSharedGateway and its parts.
pub mod Namespaces
use ingress_operator.Prelude.{
  Bool, true, false, not, ◌&&◌, ◌||◌, Option, none, some, List, [], ◌∷◌, ◌++◌, ◌==◌, if◌then◌else◌,
  is_empty, ltb, nat_eq, map, some_of,
}
use ingress_operator.Text.{Text, codes, text_eq, join}
use ingress_operator.Dict.{Dict, insert, insert_all, lookup, keys, MapOrder}
use ingress_operator.Kube.{Ingress, IngressRule, IngressTls, Gateway, Listener, match_in}
use ingress_operator.Values.{deduplicate_and_join}
use ingress_operator.Translator.{
  Config, managed_by_annotation, managed_by_value, source_annotation, mismatched_cert_annotation,
  qualified,
}
use ingress_operator.Translator.Hostname.{transform_hostname, automatic_secret_name}
use ingress_operator.Translator.Annotations.{
  filter_annotations, get_ingress_class, should_apply_class_infrastructure_annotations,
  apply_class_infrastructure_annotations,
}
use ingress_operator.Translator.Gateway.Tls.{find_tls_config_for_host, listener_tls}

-- sharedHostnameInfo
pub record SharedHostnameInfo : Type 0 where
  pub tls_config : Option IngressTls
  pub namespaces : Dict Bool

no_info : SharedHostnameInfo
no_info = record { tls_config = none; namespaces = [] }

known : Option SharedHostnameInfo → SharedHostnameInfo
known none = no_info
known (some info) = info

-- The first configuration that is found stays.
first_tls : Option IngressTls → Option IngressTls → Option IngressTls
first_tls none found = found
first_tls (some tls) found = some tls

add_namespace : Text → Option IngressTls → SharedHostnameInfo → SharedHostnameInfo
add_namespace namespace tls info = record {
  tls_config = first_tls info.tls_config tls;
  namespaces = insert namespace true info.namespaces;
}

unfoldable pub collect_rules :
    Ingress → List IngressRule → Dict SharedHostnameInfo → Dict SharedHostnameInfo
unfolding add_namespace known no_info first_tls
collect_rules ingress [] m = m
collect_rules ingress (rule ∷ rules) m = collect_rules ingress rules (
    if rule.host == []
    then m
    else insert rule.host
        (add_namespace ingress.namespace (find_tls_config_for_host ingress.tls rule.host)
          (known (lookup rule.host m)))
        m)

-- collectSharedHostnameInfo
unfoldable pub collect_shared_hostname_info :
    List Ingress → Dict SharedHostnameInfo → Dict SharedHostnameInfo
unfolding collect_rules
collect_shared_hostname_info [] m = m
collect_shared_hostname_info (ingress ∷ ingresses) m =
    collect_shared_hostname_info ingresses (collect_rules ingress ingress.rules m)

-- sort.Strings. The order of code points is the order of the bytes.
text_le : Text → Text → Bool
text_le [] t = true
text_le (c ∷ s) [] = false
text_le (c ∷ s) (d ∷ t) = ltb c d || (c == d && text_le s t)

insert_sorted : Text → List Text → List Text
insert_sorted s [] = s ∷ []
insert_sorted s (t ∷ ts) = if text_le s t then s ∷ t ∷ ts else t ∷ insert_sorted s ts

unfoldable pub sort_strings : List Text → List Text
unfolding insert_sorted text_le
sort_strings [] = []
sort_strings (s ∷ ss) = insert_sorted s (sort_strings ss)

primary : List Text → Text
primary [] = []
primary (n ∷ ns) = n

-- The listener of a hostname in the loop of buildSharedGatewayListeners.
unfoldable pub shared_listener_of :
    MapOrder → Config → Text × SharedHostnameInfo → Listener × List Text
unfolding primary
shared_listener_of order t (hostname, info) =
    let transformed = transform_hostname t hostname in
    let namespaces = sort_strings (keys (order.arrange Bool info.namespaces)) in
    let primary_namespace = primary namespaces in
    let new_name = automatic_secret_name primary_namespace transformed in
    let (tls, mismatches) =
      listener_tls t hostname transformed primary_namespace new_name info.tls_config in
    (
      record {
        name = transformed;
        hostname = some transformed;
        port = 443;
        protocol = codes "HTTPS";
        selector = match_in (codes "kubernetes.io/metadata.name") namespaces;
        tls = tls;
      },
      mismatches,
    )

unfoldable pub shared_listeners_of :
    MapOrder → Config → Dict SharedHostnameInfo → List Listener × List Text
unfolding shared_listener_of
shared_listeners_of order t [] = ([], [])
shared_listeners_of order t (h ∷ m) =
    let (listener, noted) = shared_listener_of order t h in
    let (listeners, mismatches) = shared_listeners_of order t m in
    (listener ∷ listeners, noted ++ mismatches)

-- buildSharedGatewayListeners
unfoldable pub build_shared_gateway_listeners :
    MapOrder → Config → List Ingress → List Listener × List Text
unfolding shared_listeners_of collect_shared_hostname_info
build_shared_gateway_listeners order t ingresses =
    shared_listeners_of order t
      (order.arrange SharedHostnameInfo (collect_shared_hostname_info ingresses []))

listed : Option (List Text) → List Text
listed none = []
listed (some values) = values

-- `annotationValues[k] = append(annotationValues[k], v)` for each annotation of an ingress.
append_values : Dict Text → Dict (List Text) → Dict (List Text)
append_values [] m = m
append_values ((k, v) ∷ annotations) m =
    append_values annotations (insert k (listed (lookup k m) ++ (v ∷ [])) m)

collect_values : Config → List Ingress → Dict (List Text) → Dict (List Text)
collect_values t [] m = m
collect_values t (ingress ∷ ingresses) m =
    collect_values t ingresses
      (append_values (filter_annotations ingress.annotations t.gateway_annotation_filters) m)

joined_values : Dict (List Text) → Dict Text
joined_values [] = []
joined_values ((k, values) ∷ m) = (k, deduplicate_and_join values) ∷ joined_values m

unfoldable pub source_names : List Ingress → List Text
source_names = map (λ ingress. qualified ingress.namespace ingress.name)

-- applySharedGatewayAnnotations
unfoldable pub shared_gateway_annotations : Config → List Ingress → Dict Text
unfolding append_values collect_values joined_values listed
shared_gateway_annotations t ingresses =
    insert source_annotation (join (source_names ingresses) (codes ",")) (
      insert managed_by_annotation managed_by_value
        (insert_all t.default_gateway_annotations (joined_values (collect_values t ingresses []))))

apply_classes : (Text → Text → Option Bool) → Config → List Ingress → Dict Text → Dict Text
apply_classes glob t [] annotations = annotations
apply_classes glob t (ingress ∷ ingresses) annotations =
    apply_classes glob t ingresses
      (apply_class_infrastructure_annotations glob t (get_ingress_class ingress) annotations)

-- applySharedGatewayInfrastructure
unfoldable pub shared_gateway_infrastructure :
    (Text → Text → Option Bool) → Config → List Ingress → Option (Dict Text)
unfolding apply_classes
shared_gateway_infrastructure glob t ingresses =
    let apply_class =
      some_of
        (λ ingress.
          should_apply_class_infrastructure_annotations glob (get_ingress_class ingress) t)
        ingresses in
    let base = insert_all t.gateway_infrastructure_annotations [] in
    if is_empty t.gateway_infrastructure_annotations && not apply_class
    then none
    else some (if apply_class then apply_classes glob t ingresses base else base)

unfoldable pub note_shared_mismatches : List Text → Dict Text → Dict Text
note_shared_mismatches [] annotations = annotations
note_shared_mismatches (m ∷ ms) annotations =
    insert mismatched_cert_annotation (join (m ∷ ms) (codes "; ")) annotations

-- TranslateMultipleToSharedGateway, and newSharedGateway for its names.
unfoldable pub translate_multiple_to_shared_gateway :
    MapOrder → (Text → Text → Option Bool) → Config → List Ingress → Text → Gateway
unfolding shared_gateway_annotations shared_gateway_infrastructure note_shared_mismatches
translate_multiple_to_shared_gateway order glob t ingresses gateway_name =
    let (listeners, mismatches) = build_shared_gateway_listeners order t ingresses in
    record {
      namespace = t.gateway_namespace;
      name = gateway_name;
      annotations = note_shared_mismatches mismatches (shared_gateway_annotations t ingresses);
      gateway_class_name = t.gateway_class_name;
      infrastructure = shared_gateway_infrastructure glob t ingresses;
      listeners = listeners;
    }
