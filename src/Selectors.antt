-- ===== src/Selectors.antt =====
-- Which namespaces the selector of a listener admits. Every namespace carries its name as the label
-- kubernetes.io/metadata.name; it is admitted if that label is enough for the selector.
use ingress_operator.Prelude.{
  Bool, true, false, not, ◌&&◌, Option, none, some, List, ◌≡◌, ◌==◌, some_of, contains, arith,
}
use ingress_operator.Text.{Text, codes, text_eq, same}
use ingress_operator.Dict.{Dict}
use ingress_operator.Kube.{Selector, Requirement, match_in}

abbrev pub name_label : Text
name_label = codes "kubernetes.io/metadata.name"

abbrev pub admits_requirement : Text → Requirement → Bool
admits_requirement n r = r.key == name_label && r.is_in && contains r.values n

unfoldable pub admits_labels : Option (Dict Text) → Text → Bool
admits_labels none n = true
admits_labels (some labels) n =
    not (some_of (λ (label : Text × Text). not (label.0 == name_label && label.1 == n)) labels)

unfoldable pub admits : Option Selector → Text → Bool
unfolding admits_labels
admits none n = false
admits (some s) n =
    admits_labels s.labels n && not (some_of (λ r. not (admits_requirement n r)) s.expressions)

-- A selector of one list of names admits these.
pub admits-match_in :
    (names : List Text) (n : Text) → admits (match_in name_label names) n ≡ contains names n
unfolding admits some_of same
admits-match_in names n = ground arith
