-- ===== src/Translator.antt =====
-- internal/translator: the configuration, the annotations and names that the translation shares.
pub mod Hostname
pub mod Annotations
pub mod Headers
pub mod Canary
pub mod Gateway
pub mod Route
use ingress_operator.Prelude.{◌++◌, Bool, List}
use ingress_operator.Text.{Text, codes}
use ingress_operator.Dict.{Dict}

-- IngressClassAnnotationsRule
pub record ClassRule : Type 0 where
  pub pattern_text : Text
  pub annotations : Dict Text

-- Config, without the fields of the ingress2gateway mode.
pub record Config : Type 0 where
  pub gateway_namespace : Text
  pub gateway_name : Text
  pub gateway_class_name : Text
  pub hostname_rewrite_from : Text
  pub hostname_rewrite_to : Text
  pub default_gateway_annotations : Dict Text
  pub gateway_infrastructure_annotations : Dict Text
  pub infrastructure_annotations_by_class : List ClassRule
  pub gateway_annotation_filters : List Text
  pub http_route_annotation_filters : List Text

abbrev pub managed_by_annotation : Text
managed_by_annotation = codes "ingress-doperator.fiction.si/managed-by"

abbrev pub managed_by_value : Text
managed_by_value = codes "ingress-doperator"

abbrev pub source_annotation : Text
source_annotation = codes "ingress-doperator.fiction.si/source"

abbrev pub mismatched_cert_annotation : Text
mismatched_cert_annotation = codes "ingress-doperator.fiction.si/certificate-mismatch"

abbrev pub ingress_class_annotation : Text
ingress_class_annotation = codes "kubernetes.io/ingress.class"

abbrev pub reference_grant_name : Text
reference_grant_name = codes "ingress-doperator-gateway-secrets"

-- `fmt.Sprintf("%s/%s", namespace, name)`
unfoldable pub qualified : Text → Text → Text
qualified namespace name = namespace ++ (codes "/" ++ name)
