-- ===== src/Translator/Gateway.antt =====
-- The Gateways of internal/translator/translator.go: TranslateToGateway for one ingress, and
-- TranslateMultipleToSharedGateway for many. Maps are ranged over in the order `order`;
-- `glob` is filepath.Match, as in Translator/Annotations.antt.
pub mod Tls
pub mod Shared
pub mod Annotated
pub mod Listeners
use ingress_operator.Prelude.{
  Bool, true, false, not, ◌&&◌, ◌||◌, Option, none, some, List, [], ◌∷◌, ◌++◌, ◌==◌, if◌then◌else◌,
  is_empty, contains,
}
use ingress_operator.Text.{Text, codes, text_eq, join}
use ingress_operator.Dict.{Dict, insert, insert_all, MapOrder}
use ingress_operator.Kube.{
  Ingress, IngressRule, IngressTls, Gateway, Listener, SecretRef, match_labels,
}
use ingress_operator.Translator.{
  Config, managed_by_annotation, managed_by_value, source_annotation, mismatched_cert_annotation,
  qualified,
}
use ingress_operator.Translator.Hostname.{transform_hostname, generate_safe_secret_name}
use ingress_operator.Translator.Annotations.{
  filter_annotations, get_ingress_class, should_apply_class_infrastructure_annotations,
  apply_class_infrastructure_annotations,
}
use Tls.{find_tls_config_for_host, certificate, listener_tls}

-- The map from each hostname to its TLS configuration: the last rule of a hostname writes.
unfoldable pub hostname_map :
    Ingress → List IngressRule → Dict (Option IngressTls) → Dict (Option IngressTls)
hostname_map ingress [] m = m
hostname_map ingress (rule ∷ rules) m = hostname_map ingress rules (
    if rule.host == []
    then m
    else insert rule.host (find_tls_config_for_host ingress.tls rule.host) m)

abbrev pub namespace_label : Text
namespace_label = codes "kubernetes.io/metadata.name"

-- The listener of a hostname, and what to note of its certificate.
unfoldable pub listener_of : Config → Ingress → Text × Option IngressTls → Listener × List Text
listener_of t ingress (hostname, tls_config) =
    let transformed = transform_hostname t hostname in
    let new_name = generate_safe_secret_name ingress.namespace transformed in
    let (tls, mismatches) =
      listener_tls t hostname transformed ingress.namespace new_name tls_config in
    (
      record {
        name = transformed;
        hostname = some transformed;
        port = 443;
        protocol = codes "HTTPS";
        selector = match_labels ((namespace_label, ingress.namespace) ∷ []);
        tls = tls;
      },
      mismatches,
    )

unfoldable pub listeners_of :
    Config → Ingress → Dict (Option IngressTls) → List Listener × List Text
unfolding listener_of
listeners_of t ingress [] = ([], [])
listeners_of t ingress (h ∷ m) =
    let (listener, noted) = listener_of t ingress h in
    let (listeners, mismatches) = listeners_of t ingress m in
    (listener ∷ listeners, noted ++ mismatches)

-- The annotations of spec.infrastructure for one ingress.
unfoldable pub infrastructure_of : (Text → Text → Option Bool) → Config → Text → Option (Dict Text)
infrastructure_of glob t ingress_class =
    let apply_class = should_apply_class_infrastructure_annotations glob ingress_class t in
    let base = insert_all t.gateway_infrastructure_annotations [] in
    if not (is_empty t.gateway_infrastructure_annotations) || apply_class
    then some (
        if apply_class
        then apply_class_infrastructure_annotations glob t ingress_class base
        else base)
    else none

-- The note of mismatched certificates, if there are any.
unfoldable pub note_mismatches : List Text → Dict Text → Dict Text
note_mismatches [] annotations = annotations
note_mismatches (m ∷ ms) annotations =
    insert mismatched_cert_annotation (join (m ∷ ms) (codes "; ")) annotations

unfoldable pub gateway_annotations : Config → Ingress → Dict Text
gateway_annotations t ingress =
    insert source_annotation (qualified ingress.namespace ingress.name) (
      insert managed_by_annotation managed_by_value (
        insert_all t.default_gateway_annotations
          (filter_annotations ingress.annotations t.gateway_annotation_filters)))

-- TranslateToGateway
unfoldable pub translate_to_gateway :
    MapOrder → (Text → Text → Option Bool) → Config → Ingress → Gateway
unfolding hostname_map listeners_of infrastructure_of note_mismatches gateway_annotations
translate_to_gateway order glob t ingress =
    let hostnames = order.arrange (Option IngressTls) (hostname_map ingress ingress.rules []) in
    let (listeners, mismatches) = listeners_of t ingress hostnames in
    record {
      namespace = t.gateway_namespace;
      name = t.gateway_name;
      annotations = note_mismatches mismatches (gateway_annotations t ingress);
      gateway_class_name =
          (if t.gateway_class_name == [] then codes "nginx" else t.gateway_class_name);
      infrastructure = infrastructure_of glob t (get_ingress_class ingress);
      listeners = listeners;
    }
