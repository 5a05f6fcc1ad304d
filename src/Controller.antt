-- ===== src/Controller.antt =====
-- The reconciler of ingresses, internal/controller/ingress_controller.go: its configuration, and
-- what it reads from an ingress. filepath.Match is the parameter `glob`: `none` where it reports a
-- bad pattern, and else whether the name matches.
pub mod Skip
pub mod Siblings
pub mod Canaries
pub mod Memory
pub mod Disable
use ingress_operator.Prelude.{
  ℕ, Bool, true, false, not, ◌&&◌, ◌||◌, Option, none, some, List, [], ◌∷◌, ◌==◌, if◌then◌else◌,
  is_empty, some_of,
}
use ingress_operator.Text.{Text, codes, text_eq}
use ingress_operator.Dict.{Dict, lookup, get}
use ingress_operator.Kube.{Ingress, IngressRule, HttpRoute, OwnerReference}
use ingress_operator.Translator.{Config, ClassRule, ingress_class_annotation}

abbrev pub ingress_disabled_annotation : Text
ingress_disabled_annotation = codes "ingress-doperator.fiction.si/disabled"

abbrev pub ingress_removed_annotation : Text
ingress_removed_annotation = codes "ingress-doperator.fiction.si/removed"

abbrev pub ignore_ingress_annotation : Text
ignore_ingress_annotation = codes "ingress-doperator.fiction.si/ignore-ingress"

abbrev pub original_ingress_class_annotation : Text
original_ingress_class_annotation = codes "ingress-doperator.fiction.si/original-ingress-class"

abbrev pub original_ingress_class_name_annotation : Text
original_ingress_class_name_annotation =
    codes "ingress-doperator.fiction.si/original-ingress-classname"

abbrev pub external_dns_ingress_hostname_source : Text
external_dns_ingress_hostname_source =
    codes "external-dns.alpha.kubernetes.io/ingress-hostname-source"

abbrev pub external_dns_hostname_annotation : Text
external_dns_hostname_annotation = codes "external-dns.alpha.kubernetes.io/hostname"

abbrev pub original_external_dns_hostname : Text
original_external_dns_hostname = codes "ingress-doperator.fiction.si/original-external-dns-hostname"

abbrev pub original_external_dns_ingress_hostname_source : Text
original_external_dns_ingress_hostname_source =
    codes "ingress-doperator.fiction.si/original-external-dns-ingress-hostname-source"

abbrev pub external_dns_hostname_source_annotation_only : Text
external_dns_hostname_source_annotation_only = codes "annotation-only"

abbrev pub finalizer_name : Text
finalizer_name = codes "ingress-doperator.fiction.si/finalizer"

abbrev pub disabled_ingress_class_name : Text
disabled_ingress_class_name = codes "ingress-doperator-disabled"

abbrev pub ingress_disabled_reason_normal : Text
ingress_disabled_reason_normal = codes "normal"

abbrev pub ingress_disabled_reason_external_dns : Text
ingress_disabled_reason_external_dns = codes "external-dns"

-- `fmt.Sprintf("%t", true)`
abbrev pub true_text : Text
true_text = codes "true"

-- IngressPostProcessingMode
pub data PostProcessingMode : Type 0 where
  keep_ingress disable remove disable_external_dns_mode : PostProcessingMode

-- IngressReconciler, the fields of its configuration.
pub record Reconciler : Type 0 where
  pub gateway_namespace : Text
  pub gateway_name : Text
  pub gateway_class_name : Text
  pub enable_deletion : Bool
  pub hostname_rewrite_from : Text
  pub hostname_rewrite_to : Text
  pub post_processing_mode : PostProcessingMode
  pub gateway_annotation_filters : List Text
  pub http_route_annotation_filters : List Text
  pub default_gateway_annotations : Dict Text
  pub gateway_infrastructure_annotations : Dict Text
  pub infrastructure_annotations_by_class : List ClassRule
  pub ingress_class_filters : List Text
  pub ingress_class_ignore_filters : List Text
  pub ingress_class_empty : Text
  pub clear_ingress_status_on_disable : Bool
  pub reconcile_cache_max_entries : ℕ

-- getTranslator
unfoldable pub get_translator : Reconciler → Config
get_translator r = record {
  gateway_namespace = r.gateway_namespace;
  gateway_name = r.gateway_name;
  gateway_class_name = if r.gateway_class_name == [] then codes "nginx" else r.gateway_class_name;
  hostname_rewrite_from = r.hostname_rewrite_from;
  hostname_rewrite_to = r.hostname_rewrite_to;
  default_gateway_annotations = r.default_gateway_annotations;
  gateway_infrastructure_annotations = r.gateway_infrastructure_annotations;
  infrastructure_annotations_by_class = r.infrastructure_annotations_by_class;
  gateway_annotation_filters = r.gateway_annotation_filters;
  http_route_annotation_filters = r.http_route_annotation_filters;
}

-- A pointer to a text, read where a missing one and an empty one are alike.
abbrev pub text_of : Option Text → Text
text_of none = []
text_of (some s) = s

-- getIngressClass, with the class that stands for a missing one.
unfoldable pub class_of : Text → Ingress → Text
class_of empty_class ingress =
    if not (text_of ingress.ingress_class_name == [])
    then text_of ingress.ingress_class_name
    else if not (get ingress_class_annotation ingress.annotations == [])
    then get ingress_class_annotation ingress.annotations
    else empty_class

-- getGatewayNameForClass
unfoldable pub get_gateway_name_for_class : Reconciler → Text → Text
get_gateway_name_for_class r ingress_class =
    if ingress_class == [] || ingress_class == codes "default"
    then r.gateway_name
    else ingress_class

unfoldable pub matches_to : Option Bool → Bool
matches_to none = false
matches_to (some b) = b

-- matchIngressClassPatterns
unfoldable pub match_ingress_class_patterns : (Text → Text → Option Bool) → List Text → Text → Bool
unfolding matches_to
match_ingress_class_patterns glob patterns ingress_class =
    if some_of (λ p. p == codes "*") patterns
    then true
    else not (ingress_class == [])
      && some_of (λ p. not (p == [] || p == codes "*") && matches_to (glob p ingress_class))
          patterns

module _ (glob : Text → Text → Option Bool) (r : Reconciler) where
  unfoldable pub matches_ingress_class_filter : Ingress → Bool
  matches_ingress_class_filter ingress =
      match_ingress_class_patterns glob r.ingress_class_filters
        (class_of r.ingress_class_empty ingress)

  unfoldable pub matches_ingress_class_ignore_filter : Ingress → Bool
  matches_ingress_class_ignore_filter ingress =
      match_ingress_class_patterns glob r.ingress_class_ignore_filters
        (class_of r.ingress_class_empty ingress)

  -- shouldEnqueueIngressByClass
  unfoldable pub should_enqueue_ingress_by_class : Ingress → Bool
  unfolding matches_ingress_class_filter matches_ingress_class_ignore_filter
  should_enqueue_ingress_by_class ingress =
      if matches_ingress_class_ignore_filter ingress
      then false
      else if not (matches_ingress_class_filter ingress)
      then false
      else true

-- resolveIngressPostProcessingMode
unfoldable pub resolve_ingress_post_processing_mode : Reconciler → Ingress → PostProcessingMode
resolve_ingress_post_processing_mode r ingress =
    let value = get ingress_disabled_annotation ingress.annotations in
    if value == ingress_disabled_reason_normal
    then disable
    else if value == ingress_disabled_reason_external_dns
    then disable_external_dns_mode
    else r.post_processing_mode

-- hasHostnames
unfoldable pub has_hostnames : Ingress → Bool
has_hostnames ingress = some_of (λ (rule : IngressRule). not (rule.host == [])) ingress.rules

-- setHTTPRouteOwnerReference
unfoldable pub set_http_route_owner_reference : HttpRoute → Ingress → HttpRoute
set_http_route_owner_reference route ingress = record route {
  owner_references =
      record {
        api_version = ingress.api_version;
        kind = ingress.kind;
        name = ingress.name;
        uid = ingress.uid;
        controller = true;
        block_owner_deletion = false;
      }
      ∷ [];
}
