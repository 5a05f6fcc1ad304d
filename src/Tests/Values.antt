-- ===== src/Tests/Values.antt =====
-- Values, numbers and annotations.
use ingress_operator.Prelude.{◌≡◌, refl, ◌||◌, List, [], ◌∷◌, contains, All, Distinct, arith, some}
use mathlib.Core.List.{cons-ne-nil}
use ingress_operator.Text.{Text, codes, text_eq, trim_space, trim_left, trim_right, is_space, same}
use ingress_operator.Dict.{Dict, insertion_order}
use ingress_operator.Values.{merge_certificate_mismatch_annotation}
use ingress_operator.Values.Comma.{IsValue}
use ingress_operator.Values.Mismatch.{entries, merge_certificate_mismatch_annotation-entries}
use ingress_operator.Number.{negsuc, parse_int, format_int}
use ingress_operator.Number.RoundTrip.{parse_int-format_int}

abbrev messy : Text
messy = codes " a,,b , a"

abbrev two_values : List Text
two_values = codes "a" ∷ codes "b" ∷ []

two_values-Distinct : Distinct two_values
unfolding contains same
two_values-Distinct = (refl, (refl, tt))

two_values-IsValue : All IsValue two_values
unfolding contains trim_space trim_left trim_right is_space
two_values-IsValue = (
  record { lacks = refl; trimmed = refl; filled = refl },
  (record { lacks = refl; trimmed = refl; filled = refl }, tt),
)

abbrev noted : Text
noted = codes "a.old.io->a.new.io: ns/c->gw/d"

abbrev noted_too : Text
noted_too = codes "b.old.io->b.new.io: ns/e->gw/f; a.old.io->a.new.io: ns/c->gw/d"

merge_certificate_mismatch_annotation-entries_example :
    Distinct (entries (merge_certificate_mismatch_annotation insertion_order noted noted_too))
    × ((s : Text)
        → contains
            (entries (merge_certificate_mismatch_annotation insertion_order noted noted_too))
            s
          ≡ (contains (entries noted) s || contains (entries noted_too) s))
merge_certificate_mismatch_annotation-entries_example =
    merge_certificate_mismatch_annotation-entries insertion_order noted noted_too (cons-ne-nil _ _)
      (cons-ne-nil _ _)

abbrev mapping : Dict Text
mapping = (codes "a.old.io", codes "a.new.io") ∷ []

parse_int-format_int_example : parse_int 128 (format_int (negsuc 127)) ≡ some (negsuc 127)
parse_int-format_int_example = parse_int-format_int 128 (negsuc 127) (omega arith)
