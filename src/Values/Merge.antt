-- ===== src/Values/Merge.antt =====
-- MergeAnnotationValues and deduplicateAndJoin.
use ingress_operator.Prelude.{
  ◌≡◌, ◌≢◌, refl, false, ◌||◌, List, [], ◌∷◌, ◌++◌, arith, contains, contains-append, All-append,
  ap, sym, ◌∙◌, append-nil,
}
use mathlib.Core.List.{cons-ne-nil}
use ingress_operator.Text.{Text, text_eq, tokens, same}
use ingress_operator.Text.Laws.{same_ne}
use ingress_operator.Text.Split.{IsToken, tokens-IsToken, tokens-join, tokens-nil}
use ingress_operator.Values.{unique, split_sources, merge_annotation_values}
use ingress_operator.Values.Unique.{contains-unique, unique-All, unique-append, unique_ext}

unique_twice : (xs ys : List Text) → unique [] xs ++ unique (unique [] xs) ys ≡ unique [] (xs ++ ys)
unfolding contains
unique_twice xs ys =
    ap (λ r. unique [] xs ++ r)
      (unique_ext (unique [] xs) (xs ++ []) ys (λ a. rw (contains-unique, append-nil)))
    ∙ sym (unique-append [] xs ys)

-- Two filled texts are merged into the values of the first and then those of the second, each
-- once, at its first place.
pub split_sources-merge_annotation_values :
    (existing desired : Text)
    → existing ≢ []
    → desired ≢ []
    → split_sources (merge_annotation_values existing desired)
      ≡ unique [] (split_sources existing ++ split_sources desired)
unfolding merge_annotation_values split_sources
split_sources-merge_annotation_values existing desired he hd =
    rw (same_ne existing [] he, same_ne desired [] hd)
      (rw (unique_twice (tokens b',' existing) (tokens b',' desired)) (
        tokens-join b',' [] tt (unfold contains in refl) _ (
          unique-All (IsToken b',') [] _ (
            All-append (IsToken b',') _ _ (tokens-IsToken b',' existing)
              (tokens-IsToken b',' desired)))))

merge_nil_left : (desired : Text) → merge_annotation_values [] desired ≡ desired
unfolding merge_annotation_values same
merge_nil_left desired = refl

merge_nil_right : (existing : Text) → merge_annotation_values existing [] ≡ existing
unfolding merge_annotation_values same
merge_nil_right [] = refl
merge_nil_right (c ∷ existing) = refl

pub no_sources : (s : Text) → contains (split_sources []) s ≡ false
unfolding split_sources contains
no_sources s = rw tokens-nil

-- A merged text lists a value exactly if one of the two texts does, whichever of them is empty.
pub contains-merge_annotation_values :
    (existing desired s : Text)
    → contains (split_sources (merge_annotation_values existing desired)) s
      ≡ (contains (split_sources existing) s || contains (split_sources desired) s)
contains-merge_annotation_values [] desired s = rw (merge_nil_left desired, no_sources s)
contains-merge_annotation_values (c ∷ existing) [] s =
    rw (merge_nil_right (c ∷ existing), no_sources s) (ground arith)
contains-merge_annotation_values (c ∷ existing) (d ∷ desired) s =
    rw
      (
        split_sources-merge_annotation_values (c ∷ existing) (d ∷ desired) (cons-ne-nil c existing)
            (cons-ne-nil d desired),
        contains-unique,
        contains-append,
      )
      (unfold contains in refl)
