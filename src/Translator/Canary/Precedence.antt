-- ===== src/Translator/Canary/Precedence.antt =====
-- Which backend the rules of a canary path choose.
use ingress_operator.Prelude.{
  ◌≡◌, Bool, true, false, not, ◌&&◌, ◌||◌, List, [], ◌∷◌, if◌then◌else◌, arith, is_empty,
}
use ingress_operator.Text.{codes}
use ingress_operator.Kube.{
  BackendRef, RouteMatch, RouteRule, RouteFilter, HeaderMatch, header_exact,
  header_regular_expression,
}
use ingress_operator.Translator.Canary.{
  CanaryConfig, CanaryEntry, base_matches, override_matches, backend_rule, weighted_rule,
  canary_only_ref, canary_header_match, build_canary_rules, cookie_on_pattern, canary_off_value,
  canary_on_value,
}

-- Where a request goes: to one backend, or to either by weight.
pub data Decision : Type 0 where
  to_primary to_canary by_weight : Decision

-- A Gateway tries the rules of one path in the order of their header matches, and those with as
-- many in the order of the list. The rules of a canary stand in that order: the first that holds
-- serves the request. `holds` says which header matches a request meets.
module _ (holds : HeaderMatch → Bool) where
  all_hold : List HeaderMatch → Bool
  all_hold [] = true
  all_hold (h ∷ headers) = holds h && all_hold headers

  any_match : List RouteMatch → Bool
  any_match [] = false
  any_match (m ∷ matches) = all_hold m.headers || any_match matches

  rule_holds : RouteRule → Bool
  rule_holds rule = is_empty rule.matches || any_match rule.matches

  unfoldable pub serving : List RouteRule → List BackendRef
  unfolding rule_holds any_match all_hold
  serving [] = []
  serving (rule ∷ rules) =
      let rest = serving rules in if rule_holds rule then rule.backend_refs else rest

  -- The precedence of a canary, as a decision: by the header if it is set, then by the cookie, and
  -- what neither decides is split by weight. A cookie can only choose the canary.
  by_cookie : CanaryConfig → Decision
  by_cookie config =
      if not (is_empty config.cookie)
        && holds (record {
          type = header_regular_expression;
          name = codes "Cookie";
          value = cookie_on_pattern config.cookie;
        })
      then to_canary
      else by_weight

  by_header : CanaryConfig → Decision
  unfolding by_cookie
  by_header config =
      if not (is_empty config.header_pattern)
      then (if holds (record {
        type = header_regular_expression;
        name = config.header;
        value = config.header_pattern;
      })
          then to_canary
          else by_cookie config)
      else if not (is_empty config.header_value)
      then (if holds
            (record { type = header_exact; name = config.header; value = config.header_value })
          then to_canary
          else by_cookie config)
      else if holds (record { type = header_exact; name = config.header; value = canary_off_value })
      then to_primary
      else if holds (record { type = header_exact; name = config.header; value = canary_on_value })
      then to_canary
      else by_cookie config

  unfoldable pub decide : CanaryConfig → Decision
  unfolding by_header
  decide config = if is_empty config.header then by_cookie config else by_header config

  unfoldable pub backends_for :
      BackendRef → CanaryEntry → List RouteFilter → Decision → List BackendRef
  backends_for primary_ref entry filters to_primary = primary_ref ∷ []
  backends_for primary_ref entry filters to_canary = canary_only_ref entry.backend_ref ∷ []
  backends_for primary_ref entry filters by_weight =
      (weighted_rule [] primary_ref entry filters).backend_refs

  -- For a base match without headers, the rules that are built for a path send every request where
  -- the decision by the header, then the cookie, then the weight, sends it.
  pub serving-build_canary_rules :
      (base : RouteMatch) (has_path : Bool) (primary_ref : BackendRef) (entry : CanaryEntry)
      (filters : List RouteFilter)
      → base.headers ≡ []
      → serving (build_canary_rules base has_path primary_ref entry filters)
        ≡ backends_for primary_ref entry filters (decide entry.config)
  unfolding serving build_canary_rules backends_for decide base_matches override_matches
      backend_rule weighted_rule canary_header_match
  serving-build_canary_rules base true primary_ref entry filters h = ground (arith, h)
  serving-build_canary_rules base false primary_ref entry filters h = ground (arith, h)
