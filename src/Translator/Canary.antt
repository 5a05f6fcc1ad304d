-- ===== src/Translator/Canary.antt =====
-- The canary ingresses of ingress-nginx: internal/translator/canary.go.
pub mod Weights
pub mod Entries
pub mod Precedence
use ingress_operator.Prelude.{
  ℕ, zero, suc, ◌+◌, ◌-◌, ◌%◌, ◌^◌, Bool, true, false, not, ◌&&◌, ◌||◌, Option, none, some, List,
  [], ◌∷◌, ◌++◌, ◌==◌, nat_eq, ltb, if◌then◌else◌, is_empty,
}
use ingress_operator.Text.{Text, codes, text_eq}
use ingress_operator.Dict.{Dict, lookup, insert, get}
use ingress_operator.Number.{ℤ, pos, negsuc, parse_int}
use ingress_operator.Kube.{
  Ingress, IngressRule, HttpIngressPath, ServiceBackend, BackendRef, RouteMatch, RouteRule,
  RouteFilter, HeaderMatch, HeaderMatchType, header_exact, header_regular_expression,
}

abbrev pub canary_annotation : Text
canary_annotation = codes "nginx.ingress.kubernetes.io/canary"

abbrev pub canary_weight_annotation : Text
canary_weight_annotation = codes "nginx.ingress.kubernetes.io/canary-weight"

abbrev pub canary_weight_total_annotation : Text
canary_weight_total_annotation = codes "nginx.ingress.kubernetes.io/canary-weight-total"

abbrev pub canary_by_header_annotation : Text
canary_by_header_annotation = codes "nginx.ingress.kubernetes.io/canary-by-header"

abbrev pub canary_by_header_value_annotation : Text
canary_by_header_value_annotation = codes "nginx.ingress.kubernetes.io/canary-by-header-value"

abbrev pub canary_by_header_pattern_annotation : Text
canary_by_header_pattern_annotation = codes "nginx.ingress.kubernetes.io/canary-by-header-pattern"

abbrev pub canary_by_cookie_annotation : Text
canary_by_cookie_annotation = codes "nginx.ingress.kubernetes.io/canary-by-cookie"

-- CanaryConfig. The weights are int32 values that the parser has checked not to be negative.
pub record CanaryConfig : Type 0 where
  pub weight : ℕ
  pub weight_total : ℕ
  pub header : Text
  pub header_value : Text
  pub header_pattern : Text
  pub cookie : Text

unfoldable pub is_canary : Ingress → Bool
is_canary ingress = get canary_annotation ingress.annotations == codes "true"

-- The cutoff of an int32.
abbrev pub int32_cutoff : ℕ
int32_cutoff = 2 ^ 31

non_negative : Option ℤ → Option ℕ
non_negative (some (pos n)) = some n
non_negative _ = none

positive : Option ℤ → Option ℕ
positive (some (pos (suc n))) = some (suc n)
positive _ = none

read_weight : Text → Option ℕ
read_weight raw = if raw == [] then some 0 else non_negative (parse_int int32_cutoff raw)

read_weight_total : Text → Option ℕ
read_weight_total raw = if raw == [] then some 100 else positive (parse_int int32_cutoff raw)

-- The configuration of valid weights.
config_of : Dict Text → Option ℕ → Option ℕ → Option CanaryConfig
config_of annotations none total = none
config_of annotations (some weight) none = none
config_of annotations (some weight) (some total) =
    if ltb total weight
    then none
    else some (record {
      weight = weight;
      weight_total = total;
      header = get canary_by_header_annotation annotations;
      header_value = get canary_by_header_value_annotation annotations;
      header_pattern = get canary_by_header_pattern_annotation annotations;
      cookie = get canary_by_cookie_annotation annotations;
    })

-- ParseCanaryConfig: `none` where it returns an error. Its caller then drops the configuration.
unfoldable pub parse_canary_config : Ingress → Option CanaryConfig
unfolding read_weight read_weight_total non_negative positive config_of
parse_canary_config ingress =
    config_of ingress.annotations (read_weight (get canary_weight_annotation ingress.annotations))
      (read_weight_total (get canary_weight_total_annotation ingress.annotations))

pub record CanaryEntry : Type 0 where
  pub config : CanaryConfig
  pub backend_ref : BackendRef

-- The port of a reference: 0 stands for a named port, which is resolved later.
port_of : ServiceBackend → Option ℕ
port_of service =
    if ltb 0 service.port_number
    then some service.port_number
    else if service.port_name == []
    then none
    else some 0

-- backendRefFromPath: `none` where the path has no service backend.
unfoldable pub backend_ref_from_path : HttpIngressPath → Option BackendRef
unfolding port_of
backend_ref_from_path path = elim path.service [
  | none ↦ none
  | some service ↦ some (record { name = service.name; port = port_of service; weight = none })
]

-- The loops of collectCanaryEntries, from the innermost one out.
unfoldable pub collect_paths :
    CanaryConfig → List HttpIngressPath → Dict CanaryEntry → Dict CanaryEntry
collect_paths config [] entries = entries
collect_paths config (path ∷ paths) entries =
    collect_paths config paths (elim (backend_ref_from_path path) [
      | none ↦ entries
      | some ref ↦ insert path.path (record { config = config; backend_ref = ref }) entries
    ])

unfoldable pub collect_rules : CanaryConfig → List IngressRule → Dict CanaryEntry → Dict CanaryEntry
unfolding collect_paths
collect_rules config [] entries = entries
collect_rules config (rule ∷ rules) entries =
    collect_rules config rules
      (elim rule.http [ none ↦ entries | some paths ↦ collect_paths config paths entries ])

unfoldable pub collect_from : List Ingress → Dict CanaryEntry → Dict CanaryEntry
unfolding collect_rules
collect_from [] entries = entries
collect_from (canary ∷ canaries) entries =
    collect_from canaries (elim (parse_canary_config canary) [
      | none ↦ entries
      | some config ↦ collect_rules config canary.rules entries
    ])

unfoldable pub collect_canary_entries : List Ingress → Dict CanaryEntry
unfolding collect_from
collect_canary_entries canaries = collect_from canaries []

abbrev pub canary_on_value : Text
canary_on_value = codes "always"

abbrev pub canary_off_value : Text
canary_off_value = codes "never"

-- regexp.QuoteMeta
is_meta : ℕ → Text → Bool
is_meta c [] = false
is_meta c (d ∷ ds) = c == d || is_meta c ds

unfoldable pub quote_meta : Text → Text
unfolding is_meta
quote_meta [] = []
quote_meta (c ∷ s) =
    let rest = quote_meta s in
    if is_meta c (codes "\\.+*?()|[]{}^$") then b'\\' ∷ c ∷ rest else c ∷ rest

-- cookieOnPattern
unfoldable pub cookie_on_pattern : Text → Text
cookie_on_pattern name =
    codes "(?:^|;\\s*)" ++ (quote_meta name ++ (codes "=" ++ (canary_on_value ++ codes "(?:;|$)")))

-- canaryHeaderMatch
unfoldable pub canary_header_match : CanaryConfig → HeaderMatchType × Text
canary_header_match config =
    if not (is_empty config.header_pattern)
    then (header_regular_expression, config.header_pattern)
    else if not (is_empty config.header_value)
    then (header_exact, config.header_value)
    else (header_exact, canary_on_value)

-- baseMatches
unfoldable pub base_matches : RouteMatch → Bool → List RouteMatch
base_matches base has_path = if has_path then base ∷ [] else []

-- overrideMatches
unfoldable pub override_matches : RouteMatch → Text → HeaderMatchType → Text → List RouteMatch
override_matches base name match_type value =
    record base {
      headers = base.headers ++ (record { type = match_type; name = name; value = value } ∷ []);
    }
    ∷ []

-- backendRule
unfoldable pub backend_rule : List RouteMatch → BackendRef → List RouteFilter → RouteRule
backend_rule matches ref filters = record {
  matches = matches;
  filters = filters;
  backend_refs = ref ∷ [];
}

-- int32 a - b
unfoldable pub sub_int32 : ℕ → ℕ → ℕ
sub_int32 a b = (a + 2 ^ 32 - b) % 2 ^ 32

-- weightedRule
unfoldable pub weighted_rule :
    List RouteMatch → BackendRef → CanaryEntry → List RouteFilter → RouteRule
weighted_rule matches primary_ref entry filters =
    let canary_weight = entry.config.weight in
    let primary_weight = sub_int32 entry.config.weight_total canary_weight in
    record {
      matches = matches;
      filters = filters;
      backend_refs =
          record primary_ref { weight = some primary_weight }
          ∷ record (entry.backend_ref) { weight = some canary_weight }
          ∷ [];
    }

-- canaryOnlyRef
unfoldable pub canary_only_ref : BackendRef → BackendRef
canary_only_ref ref = record ref { weight = none }

-- buildCanaryRules
unfoldable pub build_canary_rules :
    RouteMatch → Bool → BackendRef → CanaryEntry → List RouteFilter → List RouteRule
build_canary_rules base has_path primary_ref entry filters =
    let config = entry.config in
    let (match_type, value) = canary_header_match config in
    let never =
      (if not (is_empty config.header)
          && is_empty config.header_value
          && is_empty config.header_pattern
        then backend_rule (override_matches base config.header header_exact canary_off_value)
            primary_ref filters
          ∷ []
        else []) in
    let by_header =
      (if not (is_empty config.header)
        then backend_rule (override_matches base config.header match_type value)
            (canary_only_ref entry.backend_ref) filters
          ∷ []
        else []) in
    let by_cookie =
      (if not (is_empty config.cookie)
        then backend_rule
            (override_matches base (codes "Cookie") header_regular_expression
              (cookie_on_pattern config.cookie))
            (canary_only_ref entry.backend_ref) filters
          ∷ []
        else []) in
    never
    ++ (by_header
        ++ (by_cookie
            ++ (weighted_rule (base_matches base has_path) primary_ref entry filters ∷ [])))
