-- ===== src/RouteController/Admitted.antt =====
-- Which namespaces a listener admits after updateListenerNamespaces.
use ingress_operator.Prelude.{
  ◌≡◌, refl, true, Option, List, [], ◌∷◌, ◌==◌, contains, some_of, arith, Bool-cases, inl, inr,
}
use ingress_operator.Text.{Text, text_eq, same_iff, same}
use ingress_operator.Dict.{lookup, insert}
use ingress_operator.Kube.{Listener, Selector, match_in, match_labels}
use ingress_operator.Selectors.{name_label, admits, admits_labels, admits-match_in}
use ingress_operator.RouteController.Allowed.{
  string_slices_equal, change_values, replace_values, label_selector, update_selector,
  update_listener_namespaces,
}

-- The selectors that the operator makes: by the label of one namespace, or by an expression.
pub data Made : Type 0 where
  one : Text → Made
  several : List Text → Made

abbrev pub made_selector : Made → Option Selector
made_selector (one x) = match_labels ((name_label, x) ∷ [])
made_selector (several xs) = match_in name_label xs

-- Such a selector, one that admits the listed namespaces and no other.
pub record AdmitsOnly (namespaces : List Text) (o : Option Selector) : Type 0 where
  pub made : Made
  pub is_made : o ≡ made_selector made
  pub admitted : (n : Text) → admits o n ≡ contains namespaces n

string_slices_equal_lem : (xs ys : List Text) → string_slices_equal xs ys ≡ true → xs ≡ ys
unfolding string_slices_equal
string_slices_equal_lem [] [] h = refl
string_slices_equal_lem [] (y ∷ ys) h = cc
string_slices_equal_lem (x ∷ xs) [] h = cc
string_slices_equal_lem (x ∷ xs) (y ∷ ys) h = elim (Bool-cases (x == y)) [
  | inl b ↦ rw ((same_iff x y).0 b, string_slices_equal_lem xs ys (ground arith)) refl
  | inr b ↦ ground arith
]

by_label : (x : Text) → AdmitsOnly (x ∷ []) (match_labels ((name_label, x) ∷ []))
unfolding admits admits_labels same some_of contains
by_label x = record { made = one x; is_made = refl; admitted = λ n. ground arith }

pub by_expression : (xs : List Text) → AdmitsOnly xs (match_in name_label xs)
by_expression xs = record { made = several xs; is_made = refl; admitted = admits-match_in xs }

update_selector-AdmitsOnly :
    (namespaces : List Text) (made : Made)
    → AdmitsOnly namespaces (update_selector namespaces (made_selector made)).0
unfolding update_selector label_selector change_values replace_values same lookup insert
update_selector-AdmitsOnly [] (one x) = by_expression []
update_selector-AdmitsOnly (y ∷ []) (one x) = elim (Bool-cases (x == y)) [
  | inl b ↦ rw b (rw ((same_iff x y).0 b) (by_label y))
  | inr b ↦ rw b (by_label y)
]
update_selector-AdmitsOnly (y ∷ z ∷ ys) (one x) = by_expression (y ∷ z ∷ ys)
update_selector-AdmitsOnly namespaces (several xs) =
    elim (Bool-cases (string_slices_equal xs namespaces)) [
      | inl b ↦ rw b (rw (string_slices_equal_lem xs namespaces b) (by_expression namespaces))
      | inr b ↦ rw b (by_expression namespaces)
    ]

-- A listener whose selector the operator made admits, once its namespaces are updated, the given
-- namespaces and no other, by a selector that the operator makes.
pub update_listener_namespaces-AdmitsOnly :
    (namespaces : List Text) (made : Made) (l : Listener)
    → l.selector ≡ made_selector made
    → AdmitsOnly namespaces (update_listener_namespaces namespaces l).0.selector
unfolding update_listener_namespaces
update_listener_namespaces-AdmitsOnly namespaces made l h =
    rw h (update_selector-AdmitsOnly namespaces made)
