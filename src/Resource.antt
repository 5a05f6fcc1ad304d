-- ===== src/Resource.antt =====
-- internal/utils/resource.go: which resources the operator manages, and for which ingress.
pub mod Ownership
use ingress_operator.Prelude.{
  Bool, true, false, ◌&&◌, Option, none, some, List, [], ◌∷◌, ◌==◌, if◌then◌else◌, is_empty,
  contains, not,
}
use ingress_operator.Text.{Text, text_eq}
use ingress_operator.Dict.{Dict, get}
use ingress_operator.Values.{split_sources, contains_string}
use ingress_operator.Client.{not_found, other, Answer, ok, err, Client}
use ingress_operator.Translator.{
  managed_by_annotation, managed_by_value, source_annotation, qualified,
}

-- Each takes the annotations of the object.
unfoldable pub is_managed_by_us : Dict Text → Bool
is_managed_by_us annotations = get managed_by_annotation annotations == managed_by_value

unfoldable pub is_managed_by_us_for_ingress : Dict Text → Text → Text → Bool
unfolding is_managed_by_us
is_managed_by_us_for_ingress annotations namespace name =
    is_managed_by_us annotations && get source_annotation annotations == qualified namespace name

unfoldable pub is_managed_by_us_with_ingress : Dict Text → Text → Text → Bool
unfolding is_managed_by_us
is_managed_by_us_with_ingress annotations namespace name =
    let source = get source_annotation annotations in
    is_managed_by_us annotations
    && not (is_empty source)
    && contains_string (split_sources source) (qualified namespace name)

module _ {State Object : Type 0} (annotations_of : Object → Dict Text)
    (c : Client State Object) where
  unfoldable pub updatable : Answer Object → Answer Bool
  unfolding is_managed_by_us
  updatable (err not_found) = ok true
  updatable (err (other m)) = err (other m)
  updatable (ok found) = ok (is_managed_by_us (annotations_of found))

  -- CanUpdateResource, for the objects of one kind.
  unfoldable pub can_update_resource : State → Text → Text → Answer Bool
  unfolding updatable
  can_update_resource s namespace name = updatable (c.get_object s namespace name)
