-- ===== src/GatewayUtils/Annotations.antt =====
-- The annotations that MergeGatewaySpec leaves.
use ingress_operator.Prelude.{
  ◌≡◌, refl, ◌∙◌, true, false, ◌||◌, none, some, [], ◌∷◌, ◌==◌, arith, contains, Option-cases, inl,
  inr,
}
use ingress_operator.Text.{Text, codes, text_eq, same, same_iff, has_prefix}
use ingress_operator.Text.Laws.{same_refl}
use ingress_operator.Dict.{Dict, IsMap, lookup, get, insert, get-insert, MapOrder}
use ingress_operator.Kube.{Gateway}
use ingress_operator.Values.{split_sources, merge_annotation_values}
use ingress_operator.Values.Merge.{contains-merge_annotation_values, no_sources}
use ingress_operator.Translator.{
  source_annotation, mismatched_cert_annotation, managed_by_annotation,
}
use ingress_operator.GatewayUtils.{merged_value, merge_annotations, merge_gateway_spec}

-- Each key of the desired annotations gets its merged value; every other keeps its value.
get-merge_annotations :
    (order : MapOrder) (k : Text) (desired existing : Dict Text)
    → IsMap desired
    → get k (merge_annotations order desired existing) ≡ elim (lookup k desired) [
      | none ↦ get k existing
      | some v ↦ merged_value order k (get k existing) v
    ]
unfolding merge_annotations lookup
get-merge_annotations order k [] existing m = refl
get-merge_annotations order k ((j, v) ∷ desired) existing (fresh, m) = ground (
  arith,
  get-merge_annotations order k desired
      (insert j (merged_value order j (get j existing) v) existing) m,
  get-insert k j (merged_value order j (get j existing) v) existing,
  same_iff j k,
  fresh,
)

source-ne-mismatched : (source_annotation == mismatched_cert_annotation) ≡ false
unfolding same
source-ne-mismatched = refl

managed-ne-mismatched : (managed_by_annotation == mismatched_cert_annotation) ≡ false
unfolding same
managed-ne-mismatched = refl

managed-ne-source : (managed_by_annotation == source_annotation) ≡ false
unfolding same
managed-ne-source = refl

managed-prefix : has_prefix managed_by_annotation (codes "ingress-doperator.fiction.si/") ≡ true
unfolding has_prefix
managed-prefix = refl

source_value :
    (order : MapOrder) (existing desired : Text)
    → merged_value order source_annotation existing desired
      ≡ merge_annotation_values existing desired
unfolding merged_value
source_value order existing desired = rw (source-ne-mismatched, same_refl source_annotation)

managed_value :
    (order : MapOrder) (existing desired : Text)
    → merged_value order managed_by_annotation existing desired ≡ desired
unfolding merged_value
managed_value order existing desired = rw (managed-ne-mismatched, managed-ne-source, managed-prefix)

get_of_lookup : (k v : Text) (d : Dict Text) → lookup k d ≡ some v → get k d ≡ v
unfolding get
get_of_lookup k v d h = rw (h, get)

no_value : (k : Text) (d : Dict Text) → lookup k d ≡ none → get k d ≡ []
unfolding get
no_value k d h = rw (h, get)

-- A merged Gateway lists the sources of both Gateways, and no other; and it is marked as managed
-- by what the desired one says.
pub merge_gateway_spec-sources :
    (order : MapOrder) (existing desired : Gateway) (marker : Text)
    → IsMap desired.annotations
    → lookup managed_by_annotation desired.annotations ≡ some marker
    → (get managed_by_annotation (merge_gateway_spec order existing desired).annotations ≡ marker)
      × ((s : Text)
          → contains
              (split_sources
                (get source_annotation (merge_gateway_spec order existing desired).annotations))
              s
            ≡ (contains (split_sources (get source_annotation existing.annotations)) s
                || contains (split_sources (get source_annotation desired.annotations)) s))
unfolding merge_gateway_spec
merge_gateway_spec-sources order existing desired marker m h = (
  get-merge_annotations order managed_by_annotation desired.annotations existing.annotations m
      ∙ rw h (managed_value order (get managed_by_annotation existing.annotations) marker),
  λ s. sources s,
)
  where
    sources :
        (s : Text)
        → contains
            (split_sources (
              get source_annotation
                (merge_annotations order desired.annotations existing.annotations)))
            s
          ≡ (contains (split_sources (get source_annotation existing.annotations)) s
              || contains (split_sources (get source_annotation desired.annotations)) s)
    sources s = elim (Option-cases (lookup source_annotation desired.annotations)) [
      | inl e ↦
          rw
            (
              get-merge_annotations order source_annotation desired.annotations existing.annotations
                  m,
              e,
              no_value source_annotation desired.annotations e,
              no_sources s,
            )
            (ground arith)
      | inr (v, e) ↦
          rw
            (
              get-merge_annotations order source_annotation desired.annotations existing.annotations
                  m,
              e,
              get_of_lookup source_annotation v desired.annotations e,
              source_value,
            )
            (contains-merge_annotation_values (get source_annotation existing.annotations) v s)
    ]
