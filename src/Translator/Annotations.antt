-- ===== src/Translator/Annotations.antt =====
-- The annotations of the translated objects: FilterAnnotations, GetIngressClass and the
-- annotations by ingress class of internal/translator/translator.go, and their flag, parsed in
-- internal/translator/annotations_by_class.go.
pub mod Laws
pub mod ByClass
use ingress_operator.Prelude.{
  ◌≡◌, refl, true, false, Bool, not, ◌||◌, ◌&&◌, Option, none, some, List, [], ◌∷◌, ◌++◌, ◌==◌,
  if◌then◌else◌, is_empty, some_of,
}
use ingress_operator.Text.{Text, codes, text_eq, has_prefix, trim_space, split, split_pair}
use ingress_operator.Dict.{Dict, lookup, insert, insert_all}
use ingress_operator.Kube.{Ingress}
use ingress_operator.Translator.{Config, ClassRule, ingress_class_annotation}

-- FilterAnnotations
unfoldable pub filter_annotations : Dict Text → List Text → Dict Text
filter_annotations [] filters = []
filter_annotations ((key, value) ∷ annotations) filters =
    let rest = filter_annotations annotations filters in
    if some_of (λ filter. has_prefix key filter) filters then rest else (key, value) ∷ rest

filled : Option Text → Option Text
filled none = none
filled (some s) = if s == [] then none else some s

first_class : Option Text → Option Text → Text
first_class (some class) annotation = class
first_class none (some class) = class
first_class none none = codes "default"

-- GetIngressClass
unfoldable pub get_ingress_class : Ingress → Text
unfolding filled first_class
get_ingress_class ingress =
    first_class (filled ingress.ingress_class_name)
      (filled (lookup ingress_class_annotation ingress.annotations))

-- What a rule is to an ingress class. `glob` is filepath.Match: `none` where it reports a bad
-- pattern, and else whether the class matches.
pub data RuleKind : Type 0 where
  skipped fallback unmatched matched : RuleKind

module _ (glob : Text → Text → Option Bool) (ingress_class : Text) where
  of_match : Option Bool → RuleKind
  of_match none = skipped
  of_match (some false) = unmatched
  of_match (some true) = matched

  unfoldable pub rule_kind : ClassRule → RuleKind
  unfolding of_match
  rule_kind rule =
      if rule.pattern_text == []
      then skipped
      else if rule.pattern_text == codes "!"
      then fallback
      else of_match (glob rule.pattern_text ingress_class)

  -- The two flags of shouldApplyClassInfrastructureAnnotations: a fallback, and a match.
  unfoldable pub class_flags : List ClassRule → Bool → Bool → Bool
  class_flags [] has_fallback matched_non_fallback =
      if matched_non_fallback then true else has_fallback
  class_flags (rule ∷ rules) has_fallback matched_non_fallback =
      let some_annotations = not (is_empty rule.annotations) in
      class_flags rules
        (elim (rule_kind rule) [ fallback ↦ some_annotations || has_fallback | _ ↦ has_fallback ])
        (elim (rule_kind rule) [
          | matched ↦ some_annotations || matched_non_fallback
          | _ ↦ matched_non_fallback
        ])

  unfoldable pub should_apply_class_infrastructure_annotations : Config → Bool
  unfolding class_flags
  should_apply_class_infrastructure_annotations t =
      class_flags t.infrastructure_annotations_by_class false false

  -- The first loop of applyClassInfrastructureAnnotations: the annotations, and whether a rule
  -- that is no fallback matched.
  unfoldable pub apply_matched : List ClassRule → Dict Text → Bool → Dict Text × Bool
  apply_matched [] annotations matched_non_fallback = (annotations, matched_non_fallback)
  apply_matched (rule ∷ rules) annotations matched_non_fallback =
      apply_matched rules
        (elim (rule_kind rule) [
          | matched ↦ insert_all rule.annotations annotations
          | _ ↦ annotations
        ])
        (elim (rule_kind rule) [ matched ↦ true | _ ↦ matched_non_fallback ])

-- The second loop.
unfoldable pub apply_fallback : List ClassRule → Dict Text → Dict Text
apply_fallback [] annotations = annotations
apply_fallback (rule ∷ rules) annotations = apply_fallback rules (
    if rule.pattern_text == codes "!" then insert_all rule.annotations annotations else annotations)

unfoldable pub apply_class_infrastructure_annotations :
    (Text → Text → Option Bool) → Config → Text → Dict Text → Dict Text
unfolding apply_fallback apply_matched
apply_class_infrastructure_annotations glob t ingress_class annotations =
    let rules = t.infrastructure_annotations_by_class in
    let (applied, matched_non_fallback) =
      apply_matched glob ingress_class rules annotations false in
    if matched_non_fallback then applied else apply_fallback rules applied

-- ParseIngressClassAnnotationsByClass, with its error messages by name.
pub data ByClassError : Type 0 where
  no_colon empty_pattern missing_annotations no_equals empty_key no_valid_annotations : ByClassError

pub data Parsed {ℓ} (A : Type ℓ) : Type ℓ where
  ok : A → Parsed A
  failed : ByClassError → Text → Parsed A

infixl 5 ◌>>=◌ ◌>>◌
abbrev pub ◌>>=◌ {ℓ κ} : {A : Type ℓ} {B : Type κ} → Parsed A → (A → Parsed B) → Parsed B
ok a >>= f = f a
failed e s >>= f = failed e s

abbrev pub ◌>>◌ {ℓ} : {B : Type ℓ} → Parsed (Unit {0}) → Parsed B → Parsed B
m >> k = m >>= λ _. k

key_value : Text → Option (Text × Text) → Parsed (Text × Text)
key_value pair none = failed no_equals pair
key_value pair (some (k, v)) =
    if trim_space k == [] then failed empty_key pair else ok (trim_space k, trim_space v)

-- The loop over `key=value` pairs.
unfoldable pub parse_pairs : List Text → Dict Text → Parsed (Dict Text)
unfolding key_value
parse_pairs [] annotations = ok annotations
parse_pairs (p ∷ pairs) annotations =
    let pair = trim_space p in
    let rest = parse_pairs pairs annotations in
    let next = (do
      (k, v) ← key_value pair (split_pair pair b'=')
      parse_pairs pairs (insert k v annotations)) in
    if pair == [] then rest else next

filled_or : ByClassError → Text → Text → Parsed (Unit {0})
filled_or e entry s = if s == [] then failed e entry else ok tt

two_parts : Text → Option (Text × Text) → Parsed (Text × Text)
two_parts entry none = failed no_colon entry
two_parts entry (some parts) = ok parts

class_rule : Text → Text → Dict Text → Parsed ClassRule
class_rule entry p annotations =
    if is_empty annotations
    then failed no_valid_annotations entry
    else ok (record { pattern_text = p; annotations = annotations })

-- One entry `pattern:key=value,key=value`.
unfoldable pub parse_entry : Text → Parsed ClassRule
unfolding filled_or two_parts class_rule
parse_entry entry = do
  (p, a) ← two_parts entry (split_pair entry b':')
  filled_or empty_pattern entry (trim_space p)
  filled_or missing_annotations entry (trim_space a)
  annotations ← parse_pairs (split (trim_space a) b',') []
  class_rule entry (trim_space p) annotations

unfoldable pub parse_entries : List Text → Parsed (List ClassRule)
parse_entries [] = ok []
parse_entries (e ∷ entries) =
    let rest = parse_entries entries in
    let next = (do rule ← parse_entry (trim_space e); rules ← rest; ok (rule ∷ rules)) in
    if trim_space e == [] then rest else next

unfoldable pub parse_ingress_class_annotations_by_class : Text → Parsed (List ClassRule)
unfolding parse_entries
parse_ingress_class_annotations_by_class raw =
    let trimmed = trim_space raw in
    if trimmed == [] then ok [] else parse_entries (split trimmed b';')
