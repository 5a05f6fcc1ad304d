-- ===== src/GatewayUtils.antt =====
-- internal/translator/gateway_utils.go: a desired Gateway is merged into the existing one, and the
-- listeners of an ingress are removed from a Gateway.
pub mod Listeners
pub mod Annotations
use ingress_operator.Prelude.{
  Bool, true, false, not, Option, none, some, List, [], ◌∷◌, ◌==◌, if◌then◌else◌, keep, contains,
}
use ingress_operator.Text.{Text, codes, text_eq, has_prefix}
use ingress_operator.Dict.{Dict, insert, insert_all, lookup, get, MapOrder}
use ingress_operator.Kube.{Ingress, IngressRule, Gateway, Listener}
use ingress_operator.Values.{
  merge_annotation_values, merge_certificate_mismatch_annotation, remove_cert_mismatch_entries,
}
use ingress_operator.Translator.{Config, source_annotation, mismatched_cert_annotation}
use ingress_operator.Translator.Hostname.{transform_hostname}

-- The value that a desired annotation gets over an existing one.
unfoldable pub merged_value : MapOrder → Text → Text → Text → Text
merged_value order k existing desired =
    if k == mismatched_cert_annotation
    then merge_certificate_mismatch_annotation order existing desired
    else if k == source_annotation
    then merge_annotation_values existing desired
    else if has_prefix k (codes "ingress-doperator.fiction.si/")
    then desired
    else merge_annotation_values existing desired

unfoldable pub merge_annotations : MapOrder → Dict Text → Dict Text → Dict Text
merge_annotations order [] existing = existing
merge_annotations order ((k, v) ∷ desired) existing =
    merge_annotations order desired (insert k (merged_value order k (get k existing) v) existing)

unfoldable pub merge_infrastructure : Option (Dict Text) → Option (Dict Text) → Option (Dict Text)
merge_infrastructure none existing = existing
merge_infrastructure (some desired) none = some (insert_all desired [])
merge_infrastructure (some desired) (some existing) = some (insert_all desired existing)

-- `m[listener.Name] = listener` for each listener.
unfoldable pub put_listeners : List Listener → Dict Listener → Dict Listener
put_listeners [] m = m
put_listeners (l ∷ ls) m = put_listeners ls (insert l.name l m)

unfoldable pub values {ℓ} : {V : Type ℓ} → Dict V → List V
values [] = []
values ((k, v) ∷ d) = v ∷ values d

unfoldable pub merge_listeners : MapOrder → List Listener → List Listener → List Listener
unfolding put_listeners values
merge_listeners order existing desired =
    values (order.arrange Listener (put_listeners desired (put_listeners existing [])))

-- MergeGatewaySpec
unfoldable pub merge_gateway_spec : MapOrder → Gateway → Gateway → Gateway
merge_gateway_spec order existing desired = record existing {
  annotations = merge_annotations order desired.annotations existing.annotations;
  gateway_class_name = desired.gateway_class_name;
  infrastructure = merge_infrastructure desired.infrastructure existing.infrastructure;
  listeners = merge_listeners order existing.listeners desired.listeners;
}

-- The two maps that RemoveIngressListeners fills: a set of hostnames, and the original ones.
unfoldable pub hostnames_to_remove : Config → List IngressRule → Dict Bool → Dict Bool
hostnames_to_remove t [] set = set
hostnames_to_remove t (rule ∷ rules) set =
    hostnames_to_remove t rules
      (if rule.host == [] then set else insert (transform_hostname t rule.host) true set)

unfoldable pub original_to_transformed : Config → List IngressRule → Dict Text → Dict Text
original_to_transformed t [] m = m
original_to_transformed t (rule ∷ rules) m =
    original_to_transformed t rules
      (if rule.host == [] then m else insert rule.host (transform_hostname t rule.host) m)

is_set : Option Bool → Bool
is_set none = false
is_set (some b) = b

unfoldable pub remaining_listeners : Dict Bool → List Listener → List Listener
unfolding is_set
remaining_listeners set = keep (λ l. not (is_set (lookup l.name set)))

cleaned : Dict Text → Dict Text → Option Text → Dict Text
cleaned mappings annotations none = annotations
cleaned mappings annotations (some cert_mismatch) =
    insert mismatched_cert_annotation (remove_cert_mismatch_entries cert_mismatch mappings)
      annotations

-- RemoveIngressListeners
unfoldable pub remove_ingress_listeners : Gateway → Ingress → Config → Gateway
unfolding hostnames_to_remove original_to_transformed remaining_listeners cleaned
remove_ingress_listeners gateway ingress t = record gateway {
  listeners = remaining_listeners (hostnames_to_remove t ingress.rules []) gateway.listeners;
  annotations =
      cleaned (original_to_transformed t ingress.rules []) gateway.annotations
        (lookup mismatched_cert_annotation gateway.annotations);
}
