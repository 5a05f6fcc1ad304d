-- ===== src/Controller/Skip/Included.antt =====
-- How the two decisions about an ingress agree, and what the reconciler leaves alone.
use ingress_operator.Prelude.{
  ℕ, ◌≡◌, refl, Bool, true, false, not, ◌||◌, ◌⊎◌, Option, ◌==◌, if◌then◌else◌, arith,
}
use ingress_operator.Text.{Text, text_eq}
use ingress_operator.Dict.{get}
use ingress_operator.Kube.{Ingress}
use ingress_operator.Controller.{
  Reconciler, ignore_ingress_annotation, ingress_removed_annotation, true_text,
  disabled_ingress_class_name, class_of, matches_ingress_class_filter,
  matches_ingress_class_ignore_filter,
}
use ingress_operator.Controller.Memory.{Memory, was_self_deleted, should_skip_reconcile}
use ingress_operator.Controller.Skip.{
  pass_over, skip_remembered, include_remembered, should_skip_ingress,
  should_include_ingress_for_synthesis, reconcile_action, action_after,
}

module _ (glob : Text → Text → Option Bool) (r : Reconciler) (now : ℕ) where
  -- An ingress whose class or annotations say that the operator is done with it.
  abbrev pub IsDone : Ingress → Type 0
  IsDone ingress =
      ((get ignore_ingress_annotation ingress.annotations == true_text) ≡ true)
      ⊎ ((get ingress_removed_annotation ingress.annotations == true_text) ≡ true)
      ⊎ ((class_of r.ingress_class_empty ingress == disabled_ingress_class_name) ≡ true)

  skip-IsDone :
      (ingress : Ingress) (m : Memory)
      → IsDone ingress
      → should_skip_ingress glob r now ingress m ≡ (true, m)
  unfolding should_skip_ingress
  skip-IsDone ingress m h =
      decide (get ignore_ingress_annotation ingress.annotations == true_text)
        (matches_ingress_class_ignore_filter glob r ingress)
        (not (matches_ingress_class_filter glob r ingress))
        (get ingress_removed_annotation ingress.annotations == true_text)
        (class_of r.ingress_class_empty ingress == disabled_ingress_class_name)
        (skip_remembered glob r now ingress (was_self_deleted now ingress m)) h
    where
      decide :
          (a b c d e : Bool) (rest : Bool × Memory)
          → (a ≡ true) ⊎ (d ≡ true) ⊎ (e ≡ true)
          → (if a
              then (true, m)
              else if b
              then (true, m)
              else if c
              then (true, m)
              else if d
              then (true, m)
              else if e
              then (true, m)
              else rest)
            ≡ (true, m)
      decide true b c d e rest k = refl
      decide false true c d e rest k = refl
      decide false false true d e rest k = refl
      decide false false false true e rest k = refl
      decide false false false false true rest k = refl
      decide false false false false false rest k = absurd (ground (arith, k))

  -- An ingress that is ignored, marked as removed, or of the disabled class is passed over, and
  -- nothing that is remembered changes, whether it is being deleted or not.
  pub reconcile_action-IsDone :
      (ingress : Ingress) (m : Memory)
      → IsDone ingress
      → reconcile_action glob r now ingress m ≡ (pass_over, m)
  unfolding reconcile_action action_after
  reconcile_action-IsDone ingress m h = rw (skip-IsDone ingress m h) refl

  -- An ingress is passed over before its translation exactly if it is not to be included in one, or
  -- if its version is remembered in the state that this question leaves.
  pub should_skip_ingress-should_include_ingress_for_synthesis :
      (ingress : Ingress) (m : Memory)
      → (should_skip_ingress glob r now ingress m).0 ≡ (
          not (should_include_ingress_for_synthesis glob r now ingress m).0
          || (should_skip_reconcile now ingress
              (should_include_ingress_for_synthesis glob r now ingress m).1).0)
  unfolding should_skip_ingress should_include_ingress_for_synthesis
  should_skip_ingress-should_include_ingress_for_synthesis ingress m =
      decide (get ignore_ingress_annotation ingress.annotations == true_text)
        (matches_ingress_class_ignore_filter glob r ingress)
        (not (matches_ingress_class_filter glob r ingress))
        (get ingress_removed_annotation ingress.annotations == true_text)
        (class_of r.ingress_class_empty ingress == disabled_ingress_class_name)
        (was_self_deleted now ingress m)
    where
      decide :
          (a b c d e : Bool) (q : Bool × Memory)
          → (if a
              then (true, m)
              else if b
              then (true, m)
              else if c
              then (true, m)
              else if d
              then (true, m)
              else if e
              then (true, m)
              else skip_remembered glob r now ingress q).0
            ≡ (not
                  (if a
                    then (false, m)
                    else if b
                    then (false, m)
                    else if c
                    then (false, m)
                    else if d
                    then (false, m)
                    else if e
                    then (false, m)
                    else include_remembered glob r now q).0
                || (should_skip_reconcile now ingress
                    (if a
                      then (false, m)
                      else if b
                      then (false, m)
                      else if c
                      then (false, m)
                      else if d
                      then (false, m)
                      else if e
                      then (false, m)
                      else include_remembered glob r now q).1).0)
      decide true b c d e q = refl
      decide false true c d e q = refl
      decide false false true d e q = refl
      decide false false false true e q = refl
      decide false false false false true q = refl
      decide false false false false false (true, m') =
          unfold skip_remembered include_remembered in refl
      decide false false false false false (false, m') =
          unfold skip_remembered include_remembered in refl
