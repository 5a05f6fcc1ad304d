-- ===== src/Translator/Route/Weights.antt =====
-- The weights in the rules of an HTTPRoute.
use ingress_operator.Prelude.{
  ℕ, ◌+◌, ◌<◌, ◌≡◌, refl, ◌∙◌, sym, ap, Bool, true, false, not, ◌&&◌, Option, none, some, List, [],
  ◌∷◌, ◌++◌, if◌then◌else◌, is_empty, arith, All, All-append, inl, inr, ◌⊎◌,
}
use ingress_operator.Text.{codes, text_eq}
use ingress_operator.Kube.{
  Ingress, IngressRule, HttpIngressPath, BackendRef, RouteMatch, RouteRule, RouteFilter,
  header_exact, header_regular_expression,
}
use ingress_operator.Translator.{Config}
use ingress_operator.Translator.Canary.{
  CanaryEntry, int32_cutoff, collect_canary_entries, backend_ref_from_path, backend_rule,
  build_canary_rules, canary_only_ref, weighted_rule, canary_header_match, override_matches,
  base_matches, canary_off_value, cookie_on_pattern,
}
use ingress_operator.Translator.Canary.Weights.{IsWeighed, weighted_rule_lem}
use ingress_operator.Translator.Canary.Entries.{collect_canary_entries-IsWeighed}
use ingress_operator.Translator.Route.{
  backend_refs_of, plain_rule, rules_for, path_rules, paths_rules, paths_of, build_http_route_rules,
  translate_to_http_route_with_canaries,
}

-- A reference without a weight has the weight 1.
weight_of : Option ℕ → ℕ
weight_of none = 1
weight_of (some w) = w

pub total_weight : List BackendRef → ℕ
unfolding weight_of
total_weight [] = 0
total_weight (r ∷ refs) = weight_of r.weight + total_weight refs

-- A rule has no backend, or its weights add up to a positive int32.
pub Balanced : RouteRule → Type 0
Balanced rule =
    (is_empty rule.backend_refs ≡ true)
    ⊎ ((0 < total_weight rule.backend_refs) × (total_weight rule.backend_refs < int32_cutoff))

backend_rule-Balanced :
    (matches : List RouteMatch) (ref : BackendRef) (filters : List RouteFilter)
    → ref.weight ≡ none
    → Balanced (backend_rule matches ref filters)
unfolding Balanced backend_rule total_weight
backend_rule-Balanced matches ref filters h = inr (rw h (omega arith, omega arith))

weighted_rule-Balanced :
    (matches : List RouteMatch) (ref : BackendRef) (entry : CanaryEntry)
    (filters : List RouteFilter)
    → IsWeighed entry.config
    → Balanced (weighted_rule matches ref entry filters)
unfolding Balanced total_weight
weighted_rule-Balanced matches ref entry filters h =
    inr (rw (weighted_rule_lem matches ref entry filters h) (ground (arith, h)))

only_if-All :
    (b : Bool) (rule : RouteRule) → Balanced rule → All Balanced (if b then rule ∷ [] else [])
only_if-All true rule h = (h, tt)
only_if-All false rule h = tt

-- The optional rules and the last one.
four-All :
    (b c d : Bool) (p q r last : RouteRule)
    → Balanced p
    → Balanced q
    → Balanced r
    → Balanced last
    → All Balanced (
        (if b then p ∷ [] else [])
        ++ ((if c then q ∷ [] else []) ++ ((if d then r ∷ [] else []) ++ (last ∷ []))))
four-All b c d p q r last hp hq hr h =
    All-append Balanced (if b then p ∷ [] else []) _ (only_if-All b p hp) (
      All-append Balanced (if c then q ∷ [] else []) _ (only_if-All c q hq)
        (All-append Balanced (if d then r ∷ [] else []) (last ∷ []) (only_if-All d r hr) (h, tt)))

build_canary_rules-Balanced :
    (base : RouteMatch) (has_path : Bool) (ref : BackendRef) (entry : CanaryEntry)
    (filters : List RouteFilter)
    → ref.weight ≡ none
    → IsWeighed entry.config
    → All Balanced (build_canary_rules base has_path ref entry filters)
unfolding build_canary_rules
build_canary_rules-Balanced base has_path ref entry filters h weighed =
    let config = entry.config in
    let (match_type, value) = canary_header_match config in
    let canary = canary_only_ref entry.backend_ref in
    let never = override_matches base config.header header_exact canary_off_value in
    let by_header = override_matches base config.header match_type value in
    let by_cookie =
      override_matches base (codes "Cookie") header_regular_expression
        (cookie_on_pattern config.cookie) in
    four-All
      (not (is_empty config.header)
        && is_empty config.header_value
        && is_empty config.header_pattern)
      (not (is_empty config.header)) (not (is_empty config.cookie)) (backend_rule never ref filters)
      (backend_rule by_header canary filters) (backend_rule by_cookie canary filters)
      (weighted_rule (base_matches base has_path) ref entry filters)
      (backend_rule-Balanced never ref filters h)
      (backend_rule-Balanced by_header canary filters (unfold canary_only_ref in refl))
      (backend_rule-Balanced by_cookie canary filters (unfold canary_only_ref in refl))
      (weighted_rule-Balanced (base_matches base has_path) ref entry filters weighed)

ref_weight : Option BackendRef → Option ℕ
ref_weight none = none
ref_weight (some ref) = ref.weight

path_weight : (path : HttpIngressPath) → ref_weight (backend_ref_from_path path) ≡ none
unfolding backend_ref_from_path ref_weight
path_weight path = ground arith

-- A reference that is made of a path has no weight.
no_weight :
    (path : HttpIngressPath) {ref : BackendRef}
    → backend_ref_from_path path ≡ some ref
    → ref.weight ≡ none
unfolding ref_weight
no_weight path h = ap ref_weight (sym h) ∙ path_weight path

plain_rule-Balanced :
    (match : RouteMatch) (has_path : Bool) (o : Option BackendRef) (filters : List RouteFilter)
    → ((ref : BackendRef) → o ≡ some ref → ref.weight ≡ none)
    → Balanced (plain_rule match has_path o filters)
unfolding plain_rule Balanced total_weight backend_refs_of
plain_rule-Balanced match has_path none filters h = inl refl
plain_rule-Balanced match has_path (some ref) filters h =
    inr (rw (h ref refl) (omega arith, omega arith))

rules_for-Balanced :
    (match : RouteMatch) (has_path : Bool) (filters : List RouteFilter) (e : Option CanaryEntry)
    (o : Option BackendRef)
    → ((entry : CanaryEntry) → e ≡ some entry → IsWeighed entry.config)
    → ((ref : BackendRef) → o ≡ some ref → ref.weight ≡ none)
    → All Balanced (rules_for match has_path filters e o)
unfolding rules_for
rules_for-Balanced match has_path filters (some entry) (some ref) we wo =
    build_canary_rules-Balanced match has_path ref entry filters (wo ref refl) (we entry refl)
rules_for-Balanced match has_path filters none o we wo =
    (plain_rule-Balanced match has_path o filters wo, tt)
rules_for-Balanced match has_path filters (some entry) none we wo =
    (plain_rule-Balanced match has_path none filters wo, tt)

module _ (canaries : List Ingress) (filters : List RouteFilter) where
  path_rules-Balanced :
      (path : HttpIngressPath)
      → All Balanced (path_rules (collect_canary_entries canaries) filters path)
  unfolding path_rules
  path_rules-Balanced path =
      rules_for-Balanced _ _ filters _ (backend_ref_from_path path)
        (λ entry e. collect_canary_entries-IsWeighed canaries path.path e)
        (λ ref e. no_weight path e)

  paths_rules-Balanced :
      (paths : List HttpIngressPath)
      → All Balanced (paths_rules (collect_canary_entries canaries) filters paths)
  unfolding paths_rules
  paths_rules-Balanced [] = tt
  paths_rules-Balanced (path ∷ paths) =
      All-append Balanced _ _ (path_rules-Balanced path) (paths_rules-Balanced paths)

  build_http_route_rules-Balanced :
      (rules : List IngressRule)
      → All Balanced (build_http_route_rules (collect_canary_entries canaries) filters rules)
  unfolding build_http_route_rules
  build_http_route_rules-Balanced [] = tt
  build_http_route_rules-Balanced (rule ∷ rules) =
      All-append Balanced _ _ (paths_rules-Balanced (paths_of rule.http))
        (build_http_route_rules-Balanced rules)

-- Every rule of an HTTPRoute has no backend, or weights that add up to a positive int32, whatever
-- canaries are folded in: no rule drops all requests by its weights.
pub translate_to_http_route_with_canaries-Balanced :
    (t : Config) (ingress : Ingress) (canaries : List Ingress)
    → All Balanced (translate_to_http_route_with_canaries t ingress canaries).rules
unfolding translate_to_http_route_with_canaries
translate_to_http_route_with_canaries-Balanced t ingress canaries =
    build_http_route_rules-Balanced canaries _ ingress.rules
