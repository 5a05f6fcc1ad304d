-- ===== src/Controller/Skip.antt =====
-- Which ingresses the reconciler passes over, and what it does with the others: shouldSkipIngress,
-- shouldIncludeIngressForSynthesis and the head of Reconcile.
pub mod Included
use ingress_operator.Prelude.{
  ℕ, ◌≡◌, Bool, true, false, not, ◌&&◌, Option, some, none, List, ◌==◌, if◌then◌else◌,
}
use ingress_operator.Text.{Text, text_eq}
use ingress_operator.Dict.{get}
use ingress_operator.Kube.{Ingress}
use ingress_operator.Values.{contains_string}
use ingress_operator.Controller.{
  Reconciler, ignore_ingress_annotation, ingress_removed_annotation, true_text,
  disabled_ingress_class_name, finalizer_name, class_of, matches_ingress_class_filter,
  matches_ingress_class_ignore_filter,
}
use ingress_operator.Controller.Memory.{Memory, was_self_deleted, should_skip_reconcile}

-- What Reconcile goes on to do with an ingress: nothing, handleDeletion, or the translation, before
-- which it may add its finalizer.
pub data Action : Type 0 where
  pass_over handle_deletion : Action
  translate : Bool → Action

module _ (glob : Text → Text → Option Bool) (r : Reconciler) (now : ℕ) where
  skip_remembered : Ingress → Bool × Memory → Bool × Memory
  skip_remembered ingress (true, m) = (true, m)
  skip_remembered ingress (false, m) = should_skip_reconcile now ingress m

  -- shouldSkipIngress
  unfoldable pub should_skip_ingress : Ingress → Memory → Bool × Memory
  unfolding skip_remembered
  should_skip_ingress ingress m =
      if get ignore_ingress_annotation ingress.annotations == true_text
      then (true, m)
      else if matches_ingress_class_ignore_filter glob r ingress
      then (true, m)
      else if not (matches_ingress_class_filter glob r ingress)
      then (true, m)
      else if get ingress_removed_annotation ingress.annotations == true_text
      then (true, m)
      else if class_of r.ingress_class_empty ingress == disabled_ingress_class_name
      then (true, m)
      else skip_remembered ingress (was_self_deleted now ingress m)

  include_remembered : Bool × Memory → Bool × Memory
  include_remembered (deleted, m) = (not deleted, m)

  -- shouldIncludeIngressForSynthesis
  unfoldable pub should_include_ingress_for_synthesis : Ingress → Memory → Bool × Memory
  unfolding include_remembered
  should_include_ingress_for_synthesis ingress m =
      if get ignore_ingress_annotation ingress.annotations == true_text
      then (false, m)
      else if matches_ingress_class_ignore_filter glob r ingress
      then (false, m)
      else if not (matches_ingress_class_filter glob r ingress)
      then (false, m)
      else if get ingress_removed_annotation ingress.annotations == true_text
      then (false, m)
      else if class_of r.ingress_class_empty ingress == disabled_ingress_class_name
      then (false, m)
      else include_remembered (was_self_deleted now ingress m)

  action_after : Ingress → Bool × Memory → Action × Memory
  action_after ingress (true, m) = (pass_over, m)
  action_after ingress (false, m) = (
    if ingress.deleting
        then handle_deletion
        else translate
            (r.enable_deletion && not (contains_string ingress.finalizers finalizer_name)),
    m,
  )

  -- The head of Reconcile, for an ingress that is read.
  unfoldable pub reconcile_action : Ingress → Memory → Action × Memory
  unfolding action_after should_skip_ingress
  reconcile_action ingress m = action_after ingress (should_skip_ingress ingress m)
