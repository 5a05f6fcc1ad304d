-- ===== src/Resource/Ownership.antt =====
-- How the ownership tests relate.
use ingress_operator.Prelude.{◌≡◌, refl, true, ◌&&◌, not, [], ◌∷◌, is_empty, contains, arith}
use ingress_operator.Text.{Text, text_eq, same_iff, join}
use ingress_operator.Text.Split.{tokens-join, tokens-nil}
use ingress_operator.Dict.{Dict, get}
use ingress_operator.Values.{split_sources, contains_string}
use ingress_operator.Values.Comma.{IsValue, contains_string_lem}
use ingress_operator.Translator.{source_annotation, qualified}
use ingress_operator.Resource.{
  is_managed_by_us, is_managed_by_us_for_ingress, is_managed_by_us_with_ingress,
}

-- A text that is one value is its own list of sources.
pub split_sources_of_value : (v : Text) → IsValue v → split_sources v ≡ v ∷ []
unfolding split_sources join
split_sources_of_value v h = tokens-join b',' [] tt (unfold contains in refl) (v ∷ []) (h, tt)

-- What is managed for one ingress is managed with it, if its qualified name is one value.
pub is_managed_by_us_with_ingress_of_for :
    (annotations : Dict Text) (namespace name : Text)
    → IsValue (qualified namespace name)
    → is_managed_by_us_for_ingress annotations namespace name ≡ true
    → is_managed_by_us_with_ingress annotations namespace name ≡ true
unfolding is_managed_by_us_for_ingress is_managed_by_us_with_ingress contains_string
is_managed_by_us_with_ingress_of_for annotations namespace name v h =
    let q = qualified namespace name in
    ground (
      arith,
      split_sources_of_value q v,
      same_iff (get source_annotation annotations) q,
      same_iff q q,
      h,
    )

no_sources :
    (source q : Text)
    → (not (is_empty source) && contains (split_sources source) q)
      ≡ contains (split_sources source) q
unfolding split_sources contains
no_sources [] q = rw tokens-nil
no_sources (c ∷ s) q = refl

-- The test for one of many ingresses, in terms of the sources alone.
pub is_managed_by_us_with_ingress_lem :
    (annotations : Dict Text) (namespace name : Text)
    → is_managed_by_us_with_ingress annotations namespace name ≡ (
        is_managed_by_us annotations
        && contains (split_sources (get source_annotation annotations)) (qualified namespace name))
unfolding is_managed_by_us_with_ingress
is_managed_by_us_with_ingress_lem annotations namespace name =
    let source = get source_annotation annotations in
    let q = qualified namespace name in
    ground (arith, no_sources source q, contains_string_lem (split_sources source) q)
