-- ===== src/Tests/Translator.antt =====
-- Hostnames, annotations and canaries.
use ingress_operator.Prelude.{
  ◌≡◌, ◌≤◌, ◌↔◌, ◌⊎◌, refl, Bool, true, false, List, [], ◌∷◌, ◌++◌, contains, length, some, none,
  arith,
}
use ingress_operator.Text.{
  Text, codes, text_eq, same, has_suffix, trim_space, trim_left, trim_right, is_space, split,
}
use ingress_operator.Text.Split.{IsToken}
use ingress_operator.Dict.{lookup, get, insert}
use ingress_operator.Kube.{BackendRef, RouteMatch, HeaderMatch}
use ingress_operator.Translator.{Config}
use ingress_operator.Translator.Hostname.{
  transform_hostname, is_valid_hostname, check_certificate_match, generate_safe_secret_name,
  max_k8s_name_length,
}
use ingress_operator.Translator.Hostname.Laws.{transform_hostname-valid}
use ingress_operator.Translator.Hostname.Certificate.{
  WildcardFor, check_certificate_match_iff, generate_safe_secret_name_bounds,
}
use ingress_operator.Translator.Annotations.{
  apply_class_infrastructure_annotations, should_apply_class_infrastructure_annotations, rule_kind,
}
use ingress_operator.Translator.Annotations.Laws.{
  selected, write_all, apply_class_infrastructure_annotations_lem,
}
use ingress_operator.Number.{parse_int, parse_digits, in_range, signed, scan}
use ingress_operator.Translator.Canary.{
  CanaryEntry, parse_canary_config, collect_canary_entries, collect_from, collect_rules,
  collect_paths, backend_ref_from_path, build_canary_rules,
}
use ingress_operator.Translator.Canary.Weights.{IsWeighed}
use ingress_operator.Translator.Canary.Entries.{collect_canary_entries-IsWeighed}
use ingress_operator.Translator.Canary.Precedence.{
  serving, decide, backends_for, serving-build_canary_rules,
}
use ingress_operator.Tests.Data.{config, exact_glob, shop_canary}

transform_hostname-valid_example :
    (transform_hostname config (codes "a.old.io") ≡ codes "a.old.io")
    ⊎ (is_valid_hostname (transform_hostname config (codes "a.old.io")) ≡ true)
transform_hostname-valid_example = transform_hostname-valid config (codes "a.old.io")

from-IsToken : IsToken b',' (codes "old.io")
unfolding contains trim_space trim_left trim_right is_space
from-IsToken = record { lacks = refl; trimmed = refl; filled = refl }

to-IsToken : IsToken b',' (codes "new.io")
unfolding contains trim_space trim_left trim_right is_space
to-IsToken = record { lacks = refl; trimmed = refl; filled = refl }

new_host_valid : is_valid_hostname (codes "a" ++ (codes "." ++ codes "new.io")) ≡ true
unfolding is_valid_hostname split
new_host_valid = refl

abbrev wildcards : List Text
wildcards = codes "*.new.io" ∷ []

check_certificate_match_iff_example :
    (check_certificate_match (codes "a.old.io") (codes "a.new.io") wildcards ≡ true) ↔ (
      (codes "a.old.io" ≡ codes "a.new.io")
      ⊎ (contains wildcards (codes "a.new.io") ≡ true)
      ⊎ WildcardFor (codes "a.new.io") wildcards)
check_certificate_match_iff_example =
    check_certificate_match_iff (codes "a.old.io") (codes "a.new.io") wildcards

generate_safe_secret_name_bounds_example :
    (length (generate_safe_secret_name (codes "ns") (codes "a.new.io")) ≤ max_k8s_name_length)
    × (has_suffix (generate_safe_secret_name (codes "ns") (codes "a.new.io")) (codes "-") ≡ false)
generate_safe_secret_name_bounds_example =
    generate_safe_secret_name_bounds (codes "ns") (codes "a.new.io")

apply_class_infrastructure_annotations_lem_example :
    apply_class_infrastructure_annotations exact_glob config (codes "inner") []
    ≡ write_all exact_glob
        (codes "inner")
        (selected exact_glob (codes "inner") config.infrastructure_annotations_by_class)
        []
apply_class_infrastructure_annotations_lem_example =
    apply_class_infrastructure_annotations_lem exact_glob (codes "inner") config []

-- Without the fallback.
abbrev inner_only : Config
inner_only = record config {
  infrastructure_annotations_by_class =
      record { pattern_text = codes "inner"; annotations = (codes "scope", codes "inner") ∷ [] }
      ∷ [];
}

outer_unmatched :
    should_apply_class_infrastructure_annotations exact_glob (codes "outer") inner_only ≡ false
unfolding should_apply_class_infrastructure_annotations rule_kind same
outer_unmatched = refl

abbrev canary_entry : CanaryEntry
canary_entry = record {
  config = record {
    weight = 20;
    weight_total = 100;
    header = [];
    header_value = [];
    header_pattern = [];
    cookie = [];
  };
  backend_ref = record { name = codes "cart"; port = some 80; weight = none };
}

abbrev primary_ref : BackendRef
primary_ref = record { name = codes "cart-stable"; port = some 80; weight = none }

canary_entry-IsWeighed : IsWeighed canary_entry.config
canary_entry-IsWeighed = record {
  weight_le = omega arith;
  total_pos = omega arith;
  total_lt = omega arith;
}

collected : lookup (codes "/cart") (collect_canary_entries (shop_canary ∷ [])) ≡ some canary_entry
unfolding collect_canary_entries collect_from collect_rules collect_paths backend_ref_from_path
    parse_canary_config get lookup insert same parse_int parse_digits in_range signed scan
collected = refl

collect_canary_entries-IsWeighed_example : IsWeighed canary_entry.config
collect_canary_entries-IsWeighed_example =
    collect_canary_entries-IsWeighed (shop_canary ∷ []) (codes "/cart") collected

-- A canary by a header, for requests that do not carry it.
abbrev by_header_entry : CanaryEntry
by_header_entry = record canary_entry {
  config = record (canary_entry.config) { header = codes "X-Canary" };
}

abbrev no_header : HeaderMatch → Bool
no_header h = false

abbrev cart_match : RouteMatch
cart_match = record { path = none; headers = [] }

serving-build_canary_rules_example :
    serving no_header (build_canary_rules cart_match true primary_ref by_header_entry [])
    ≡ backends_for no_header primary_ref by_header_entry []
        (decide no_header by_header_entry.config)
serving-build_canary_rules_example =
    serving-build_canary_rules no_header cart_match true primary_ref by_header_entry [] refl
