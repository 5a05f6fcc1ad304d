-- ===== src/Translator/Annotations/Laws.antt =====
-- Which annotations are copied, and which the ingress class adds.
use ingress_operator.Prelude.{
  ◌≡◌, refl, true, false, Bool, not, ◌||◌, Option, none, List, [], ◌∷◌, ◌==◌, if◌then◌else◌,
  is_empty, some_of, arith, keep, Bool-cases, inl, inr,
}
use ingress_operator.Text.{Text, codes, text_eq, same, same_iff, has_prefix}
use ingress_operator.Dict.{Dict, lookup, insert_all}
use ingress_operator.Translator.{Config, ClassRule}
use ingress_operator.Translator.Annotations.{
  filter_annotations, RuleKind, fallback, matched, rule_kind, class_flags,
  should_apply_class_infrastructure_annotations, apply_matched, apply_fallback,
  apply_class_infrastructure_annotations,
}

-- An annotation is dropped exactly if its key has one of the prefixes, and else keeps its value.
pub lookup-filter_annotations :
    (k : Text) (annotations : Dict Text) (filters : List Text)
    → lookup k (filter_annotations annotations filters)
      ≡ (if some_of (λ filter. has_prefix k filter) filters then none else lookup k annotations)
unfolding filter_annotations lookup
lookup-filter_annotations k [] filters = ground arith
lookup-filter_annotations k ((j, v) ∷ annotations) filters = elim (Bool-cases (j == k)) [
  | inl e ↦
      rw ((same_iff j k).0 e)
        (ground (arith, lookup-filter_annotations k annotations filters, same_iff k k))
  | inr e ↦ ground (arith, lookup-filter_annotations k annotations filters, e)
]

-- The rules that the class selects: those that match it, or the fallbacks if none does.
module _ (glob : Text → Text → Option Bool) (ingress_class : Text) where
  is_matched : RuleKind → Bool
  is_matched matched = true
  is_matched _ = false

  pub selected : List ClassRule → List ClassRule
  selected rules =
      let hits = keep (λ rule. is_matched (rule_kind glob ingress_class rule)) rules in
      if is_empty hits then keep (λ rule. rule.pattern_text == codes "!") rules else hits

  -- Their annotations are written one rule after the other.
  pub write_all : List ClassRule → Dict Text → Dict Text
  write_all [] annotations = annotations
  write_all (rule ∷ rules) annotations = write_all rules (insert_all rule.annotations annotations)

  apply_matched_lem :
      (rules : List ClassRule) (annotations : Dict Text) (m : Bool)
      → let hits = keep (λ rule. is_matched (rule_kind glob ingress_class rule)) rules in
        apply_matched glob ingress_class rules annotations m
        ≡ (write_all hits annotations, m || not (is_empty hits))
  unfolding apply_matched keep write_all is_matched
  apply_matched_lem [] annotations m = ground arith
  apply_matched_lem (rule ∷ rules) annotations m = ground (
    arith,
    apply_matched_lem rules annotations m,
    apply_matched_lem rules (insert_all rule.annotations annotations) true,
  )

  is_fallback : ClassRule → Bool
  is_fallback rule = rule.pattern_text == codes "!"

  apply_fallback_lem :
      (rules : List ClassRule) (annotations : Dict Text)
      → apply_fallback rules annotations
        ≡ write_all (keep (λ rule. rule.pattern_text == codes "!") rules) annotations
  unfolding apply_fallback keep write_all
  apply_fallback_lem [] annotations = refl
  apply_fallback_lem (rule ∷ rules) annotations = ground (
    arith,
    apply_fallback_lem rules annotations,
    apply_fallback_lem rules (insert_all rule.annotations annotations),
  )

  -- The annotations of the selected rules are written over the given ones, in the order of the
  -- rules: those of every rule that matches the class, or those of the fallbacks if none does.
  pub apply_class_infrastructure_annotations_lem :
      (t : Config) (annotations : Dict Text)
      → apply_class_infrastructure_annotations glob t ingress_class annotations
        ≡ write_all (selected t.infrastructure_annotations_by_class) annotations
  unfolding apply_class_infrastructure_annotations selected write_all
  apply_class_infrastructure_annotations_lem t annotations =
      let rules = t.infrastructure_annotations_by_class in
      ground
        (arith, apply_matched_lem rules annotations false, apply_fallback_lem rules annotations)

  fallback_kind :
      (rule : ClassRule) → is_fallback rule ≡ true → rule_kind glob ingress_class rule ≡ fallback
  unfolding rule_kind is_fallback same
  fallback_kind rule h = rw ((same_iff rule.pattern_text (codes "!")).0 h)

  insert_all-quiet :
      (rule : ClassRule) (annotations : Dict Text)
      → is_empty rule.annotations ≡ true
      → insert_all rule.annotations annotations ≡ annotations
  unfolding insert_all
  insert_all-quiet rule annotations h = ground arith

  -- Rules that raise no flag write nothing.
  class_flags-quiet :
      (rules : List ClassRule) (f m : Bool) (annotations : Dict Text)
      → class_flags glob ingress_class rules f m ≡ false
      → (f ≡ false)
        × (m ≡ false)
        × (write_all
              (keep (λ rule. is_matched (rule_kind glob ingress_class rule)) rules)
              annotations
            ≡ annotations)
        × (write_all (keep (λ rule. rule.pattern_text == codes "!") rules) annotations
            ≡ annotations)
  unfolding class_flags keep write_all is_matched is_fallback
  class_flags-quiet [] f m annotations h = ground arith
  class_flags-quiet (rule ∷ rules) f m annotations h =
      let some_annotations = not (is_empty rule.annotations) in
      let f' : Bool = elim (rule_kind glob ingress_class rule) [
        | fallback ↦ some_annotations || f
        | _ ↦ f
      ] in
      let m' : Bool = elim (rule_kind glob ingress_class rule) [
        | matched ↦ some_annotations || m
        | _ ↦ m
      ] in
      ground (
        arith,
        class_flags-quiet rules f' m' annotations,
        insert_all-quiet rule annotations,
        fallback_kind rule,
      )

  -- Where should_apply says no, applying would change nothing.
  pub apply_class_infrastructure_annotations-quiet :
      (t : Config) (annotations : Dict Text)
      → should_apply_class_infrastructure_annotations glob ingress_class t ≡ false
      → apply_class_infrastructure_annotations glob t ingress_class annotations ≡ annotations
  unfolding should_apply_class_infrastructure_annotations selected
  apply_class_infrastructure_annotations-quiet t annotations h =
      rw (apply_class_infrastructure_annotations_lem t annotations) (
        ground (
          arith,
          class_flags-quiet t.infrastructure_annotations_by_class false false annotations h,
        ))
