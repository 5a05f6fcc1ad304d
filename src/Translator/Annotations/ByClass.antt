-- ===== src/Translator/Annotations/ByClass.antt =====
-- What ParseIngressClassAnnotationsByClass accepts.
use ingress_operator.Prelude.{
  ◌≡◌, refl, false, List, [], ◌∷◌, ◌==◌, is_empty, Bool-cases, inl, inr, All,
}
use ingress_operator.Text.{Text, text_eq, same, trim_space, split, split_pair}
use ingress_operator.Text.Trim.{trim_space_idem}
use ingress_operator.Dict.{Dict, IsMap, insert, insert-IsMap}
use ingress_operator.Translator.{ClassRule}
use ingress_operator.Translator.Annotations.{
  Parsed, ok, failed, ByClassError, empty_pattern, missing_annotations, ◌>>=◌, key_value,
  parse_pairs, filled_or, two_parts, class_rule, parse_entry, parse_entries,
  parse_ingress_class_annotations_by_class,
}

-- A rule that the flag can give: a trimmed pattern that is not empty, and annotations, a map
-- that is not empty.
pub record IsClassRule (rule : ClassRule) : Type 0 where
  pub some_pattern : is_empty rule.pattern_text ≡ false
  pub trimmed : trim_space rule.pattern_text ≡ rule.pattern_text
  pub some_annotations : is_empty rule.annotations ≡ false
  pub map_annotations : IsMap rule.annotations

-- What holds of the result, if there is one.
abbrev pub Accepts {ℓ κ} : {A : Type ℓ} → (A → Type κ) → Parsed A → Type κ
Accepts P (ok a) = P a
Accepts P (failed e s) = Unit

Accepts-bind {ℓ κ μ} :
    {A : Type ℓ} {B : Type κ} (P : B → Type μ) (m : Parsed A) (f : A → Parsed B)
    → ((a : A) → m ≡ ok a → Accepts P (f a))
    → Accepts P (m >>= f)
Accepts-bind P (ok a) f h = h a refl
Accepts-bind P (failed e s) f h = tt

parse_pairs-IsMap :
    (pairs : List Text) (d : Dict Text) → IsMap d → Accepts IsMap (parse_pairs pairs d)
unfolding parse_pairs
parse_pairs-IsMap [] d m = m
parse_pairs-IsMap (p ∷ pairs) d m = elim (Bool-cases (trim_space p == [])) [
  | inl e ↦ rw e (parse_pairs-IsMap pairs d m)
  | inr e ↦ rw e (
      Accepts-bind IsMap (key_value (trim_space p) (split_pair (trim_space p) b'=')) _
        (λ (k, v) _. parse_pairs-IsMap pairs (insert k v d) (insert-IsMap k v d m)))
]

filled_or_ok :
    (e : ByClassError) (entry s : Text) (u : Unit {0})
    → filled_or e entry s ≡ ok u
    → is_empty s ≡ false
unfolding filled_or same
filled_or_ok e entry [] u h = cc
filled_or_ok e entry (c ∷ s) u h = refl

class_rule-IsClassRule :
    (entry p : Text) (annotations : Dict Text)
    → is_empty (trim_space p) ≡ false
    → IsMap annotations
    → Accepts IsClassRule (class_rule entry (trim_space p) annotations)
unfolding class_rule
class_rule-IsClassRule entry p [] h m = tt
class_rule-IsClassRule entry p ((k, v) ∷ d) h m = record {
  some_pattern = h;
  trimmed = trim_space_idem p;
  some_annotations = refl;
  map_annotations = m;
}

at_ok {ℓ κ} : {A : Type ℓ} (P : A → Type κ) (m : Parsed A) (a : A) → Accepts P m → m ≡ ok a → P a
at_ok P m a h e = rw e at h

parse_entry-IsClassRule : (entry : Text) → Accepts IsClassRule (parse_entry entry)
unfolding parse_entry
parse_entry-IsClassRule entry =
    Accepts-bind IsClassRule (two_parts entry (split_pair entry b':')) _ λ (p, a) _.
      Accepts-bind IsClassRule (filled_or empty_pattern entry (trim_space p)) _ λ u hp.
        Accepts-bind IsClassRule (filled_or missing_annotations entry (trim_space a)) _ λ _ _.
          Accepts-bind IsClassRule (parse_pairs (split (trim_space a) b',') []) _ λ d hd.
            class_rule-IsClassRule entry p d (filled_or_ok empty_pattern entry (trim_space p) u hp)
              (at_ok IsMap _ d (parse_pairs-IsMap (split (trim_space a) b',') [] tt) hd)

parse_entries-IsClassRule :
    (entries : List Text) → Accepts (All IsClassRule) (parse_entries entries)
unfolding parse_entries
parse_entries-IsClassRule [] = tt
parse_entries-IsClassRule (e ∷ entries) = elim (Bool-cases (trim_space e == [])) [
  | inl b ↦ rw b (parse_entries-IsClassRule entries)
  | inr b ↦ rw b (
      Accepts-bind (All IsClassRule) (parse_entry (trim_space e)) _ λ rule hr.
        Accepts-bind (All IsClassRule) (parse_entries entries) _ λ rules hs. (
          at_ok IsClassRule _ rule (parse_entry-IsClassRule (trim_space e)) hr,
          at_ok (All IsClassRule) _ rules (parse_entries-IsClassRule entries) hs,
        ))
]

-- Whatever the flag says, a list of rules that it is parsed into has well-formed rules only.
pub parse_ingress_class_annotations_by_class-IsClassRule :
    (raw : Text) → Accepts (All IsClassRule) (parse_ingress_class_annotations_by_class raw)
unfolding parse_ingress_class_annotations_by_class
parse_ingress_class_annotations_by_class-IsClassRule raw =
    elim (Bool-cases (trim_space raw == [])) [
      | inl e ↦ rw e tt
      | inr e ↦ rw e (parse_entries-IsClassRule (split (trim_space raw) b';'))
    ]
