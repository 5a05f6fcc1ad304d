-- ===== src/Translator/Route.antt =====
-- The HTTPRoute of an ingress: TranslateToHTTPRouteWithCanaries, buildHTTPRouteRules and their
-- helpers in internal/translator/translator.go.
pub mod Attached
pub mod Weights
use ingress_operator.Prelude.{
  Bool, true, false, not, Option, none, some, List, [], ◌∷◌, ◌++◌, ◌==◌, if◌then◌else◌, is_empty,
  map,
}
use ingress_operator.Text.{Text, codes, text_eq}
use ingress_operator.Dict.{Dict, insert, lookup}
use ingress_operator.Kube.{
  Ingress, IngressRule, HttpIngressPath, PathType, exact, prefix, implementation_specific,
  PathMatchType, path_exact, path_prefix, RouteMatch, RouteRule, RouteFilter, BackendRef, ParentRef,
  HttpRoute,
}
use ingress_operator.Translator.{
  Config, managed_by_annotation, managed_by_value, source_annotation, qualified,
}
use ingress_operator.Translator.Hostname.{transform_hostname}
use ingress_operator.Translator.Annotations.{filter_annotations}
use ingress_operator.Translator.Headers.{build_header_modifier_filters, collect_filters}
use ingress_operator.Translator.Canary.{
  CanaryEntry, collect_canary_entries, backend_ref_from_path, base_matches, build_canary_rules,
}

path_match_type : Option PathType → PathMatchType
path_match_type none = path_prefix
path_match_type (some exact) = path_exact
path_match_type (some implementation_specific) = path_prefix
path_match_type (some prefix) = path_prefix

-- buildPathMatch: the match, and whether the path has a value.
unfoldable pub build_path_match : HttpIngressPath → RouteMatch × Bool
unfolding path_match_type
build_path_match path = if path.path == [] then (record { path = none; headers = [] }, false) else (
  record {
    path = some (record { type = path_match_type path.path_type; value = path.path });
    headers = [];
  },
  true,
)

backend_refs_of : Option BackendRef → List BackendRef
backend_refs_of none = []
backend_refs_of (some ref) = ref ∷ []

-- plainRule
unfoldable pub plain_rule : RouteMatch → Bool → Option BackendRef → List RouteFilter → RouteRule
unfolding backend_refs_of
plain_rule match has_path ref filters = record {
  matches = base_matches match has_path;
  filters = filters;
  backend_refs = backend_refs_of ref;
}

-- The rules of one path, for the canary entry and the backend that it has.
rules_for :
    RouteMatch → Bool → List RouteFilter → Option CanaryEntry → Option BackendRef → List RouteRule
rules_for match has_path filters (some entry) (some ref) =
    build_canary_rules match has_path ref entry filters
rules_for match has_path filters none ref = plain_rule match has_path ref filters ∷ []
rules_for match has_path filters (some entry) none = plain_rule match has_path none filters ∷ []

unfoldable pub path_rules : Dict CanaryEntry → List RouteFilter → HttpIngressPath → List RouteRule
unfolding rules_for
path_rules canary_entries filters path =
    let (match, has_path) = build_path_match path in
    rules_for match has_path filters (lookup path.path canary_entries) (backend_ref_from_path path)

unfoldable pub paths_rules :
    Dict CanaryEntry → List RouteFilter → List HttpIngressPath → List RouteRule
paths_rules canary_entries filters [] = []
paths_rules canary_entries filters (path ∷ paths) =
    path_rules canary_entries filters path ++ paths_rules canary_entries filters paths

paths_of : Option (List HttpIngressPath) → List HttpIngressPath
paths_of none = []
paths_of (some paths) = paths

-- buildHTTPRouteRules
unfoldable pub build_http_route_rules :
    Dict CanaryEntry → List RouteFilter → List IngressRule → List RouteRule
unfolding paths_of
build_http_route_rules canary_entries filters [] = []
build_http_route_rules canary_entries filters (rule ∷ rules) =
    paths_rules canary_entries filters (paths_of rule.http)
    ++ build_http_route_rules canary_entries filters rules

unfoldable pub route_hostnames : Config → List IngressRule → List Text
route_hostnames t [] = []
route_hostnames t (rule ∷ rules) =
    let rest = route_hostnames t rules in
    if rule.host == [] then rest else transform_hostname t rule.host ∷ rest

unfoldable pub parent_refs_of : Config → List Text → List ParentRef
parent_refs_of t = map λ hostname. record {
  name = t.gateway_name;
  namespace = t.gateway_namespace;
  section_name = hostname;
}

-- TranslateToHTTPRouteWithCanaries
unfoldable pub translate_to_http_route_with_canaries : Config → Ingress → List Ingress → HttpRoute
unfolding build_http_route_rules route_hostnames parent_refs_of
translate_to_http_route_with_canaries t ingress canaries =
    let (request, response) = build_header_modifier_filters ingress.annotations in
    let hostnames = route_hostnames t ingress.rules in
    record {
      namespace = ingress.namespace;
      name = ingress.name;
      annotations = insert source_annotation (qualified ingress.namespace ingress.name) (
          insert managed_by_annotation managed_by_value
            (filter_annotations ingress.annotations t.http_route_annotation_filters));
      owner_references = [];
      finalizers = [];
      deleting = false;
      hostnames = hostnames;
      parent_refs = parent_refs_of t hostnames;
      rules =
          build_http_route_rules (collect_canary_entries canaries)
            (collect_filters request response) ingress.rules;
    }

-- TranslateToHTTPRoute
unfoldable pub translate_to_http_route : Config → Ingress → HttpRoute
unfolding translate_to_http_route_with_canaries
translate_to_http_route t ingress = translate_to_http_route_with_canaries t ingress []
