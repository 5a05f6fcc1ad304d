-- ===== src/RouteController/Allowed.antt =====
-- The namespaces and the TLS of one listener: updateListenerNamespaces, addNamespaceToListener,
-- updateListenerTLS and createListenerWithNamespaces of
-- internal/controller/httproute_controller.go.
use ingress_operator.Prelude.{
  Bool, true, false, ◌&&◌, Option, none, some, List, [], ◌∷◌, ◌++◌, ◌==◌, if◌then◌else◌,
}
use ingress_operator.Text.{Text, codes, text_eq}
use ingress_operator.Dict.{Dict, lookup, insert}
use ingress_operator.Kube.{Listener, Selector, Requirement, SecretRef, match_in}
use ingress_operator.Selectors.{name_label}
use ingress_operator.Values.{contains_string}
use ingress_operator.Translator.Gateway.Shared.{sort_strings}

-- stringSlicesEqual
unfoldable pub string_slices_equal : List Text → List Text → Bool
string_slices_equal [] [] = true
string_slices_equal [] (y ∷ ys) = false
string_slices_equal (x ∷ xs) [] = false
string_slices_equal (x ∷ xs) (y ∷ ys) = x == y && string_slices_equal xs ys

-- The expressions, after a change of the first one on the names of namespaces. The change gives the
-- new values, or `none` where it leaves them. Without such an expression nothing is updated.
unfoldable pub change_values :
    (List Text → Option (List Text)) → List Requirement → List Requirement × Bool
change_values change [] = ([], false)
change_values change (r ∷ rs) =
    let (rest, updated) = change_values change rs in
    let changed : List Requirement × Bool = elim (change r.values) [
      | none ↦ (r ∷ rs, false)
      | some values ↦ (record r { values = values } ∷ rs, true)
    ] in
    if r.key == name_label && r.is_in then changed else (r ∷ rest, updated)

unfoldable pub replace_values : List Text → List Text → Option (List Text)
replace_values namespaces values =
    if string_slices_equal values namespaces then none else some namespaces

insert_value : Text → List Text → Option (List Text)
insert_value namespace values =
    if contains_string values namespace
    then none
    else some (sort_strings (values ++ (namespace ∷ [])))

-- A selector by labels: one namespace is set as the label, several become an expression.
unfoldable pub label_selector : Dict Text → List Requirement → List Text → Selector × Bool
label_selector labels expressions (n ∷ []) =
    let set : Selector = record {
      labels = some (insert name_label n labels);
      expressions = expressions;
    } in
    elim (lookup name_label labels) [
      | none ↦ (set, true)
      | some current ↦
          if current == n
          then (record { labels = some labels; expressions = expressions }, false)
          else (set, true)
    ]
label_selector labels expressions [] = (
  record {
    labels = none;
    expressions = record { key = name_label; is_in = true; values = [] } ∷ [];
  },
  true,
)
label_selector labels expressions (n ∷ m ∷ ns) = (
  record {
    labels = none;
    expressions = record { key = name_label; is_in = true; values = n ∷ m ∷ ns } ∷ [];
  },
  true,
)

unfoldable pub update_selector : List Text → Option Selector → Option Selector × Bool
unfolding change_values replace_values label_selector
update_selector namespaces none = (none, false)
update_selector namespaces (some s) = elim s.labels [
  | some labels ↦
      let (selector, updated) = label_selector labels s.expressions namespaces in
      (some selector, updated)
  | none ↦
      let (expressions, updated) = change_values (replace_values namespaces) s.expressions in
      (some (record s { expressions = expressions }), updated)
]

-- updateListenerNamespaces
unfoldable pub update_listener_namespaces : List Text → Listener → Listener × Bool
unfolding update_selector
update_listener_namespaces namespaces listener =
    let (selector, updated) = update_selector namespaces listener.selector in
    (record listener { selector = selector }, updated)

-- addNamespaceToListener
unfoldable pub add_namespace_to_listener : Text → Listener → Listener × Bool
unfolding change_values insert_value
add_namespace_to_listener namespace listener = elim listener.selector [
  | none ↦ (listener, false)
  | some s ↦
      let (expressions, updated) = change_values (insert_value namespace) s.expressions in
      (record listener { selector = some (record s { expressions = expressions }) }, updated)
]

same_refs : List SecretRef → List SecretRef → Bool
same_refs [] [] = true
same_refs [] (y ∷ ys) = false
same_refs (x ∷ xs) [] = false
same_refs (x ∷ xs) (y ∷ ys) = x.name == y.name && x.namespace == y.namespace && same_refs xs ys

same_tls : Option (List SecretRef) → Option (List SecretRef) → Bool
unfolding same_refs
same_tls none none = true
same_tls none (some y) = false
same_tls (some x) none = false
same_tls (some x) (some y) = same_refs x y

-- updateListenerTLS
unfoldable pub update_listener_tls : Option (List SecretRef) → Listener → Listener × Bool
unfolding same_tls
update_listener_tls desired_tls listener =
    if same_tls listener.tls desired_tls
    then (listener, false)
    else (record listener { tls = desired_tls }, true)

-- createListenerWithNamespaces
unfoldable pub create_listener_with_namespaces :
    Text → List Text → Option (List SecretRef) → Listener
create_listener_with_namespaces hostname namespaces tls = record {
  name = hostname;
  hostname = some hostname;
  port = 443;
  protocol = codes "HTTPS";
  selector = match_in name_label namespaces;
  tls = tls;
}
