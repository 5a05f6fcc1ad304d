-- ===== src/Controller/Canaries/Folded.antt =====
-- A canary has the primaries reconciled that it is folded into.
use ingress_operator.Prelude.{
  ◌≡◌, refl, ap, ◌∙◌, Bool, true, not, ◌&&◌, ◌||◌, Option, none, some, List, [], ◌∷◌, if◌then◌else◌,
  keep, arith, Bool-cases, inl, inr,
}
use ingress_operator.Text.{Text, text_eq, same_iff}
use ingress_operator.Kube.{Ingress}
use ingress_operator.Client.{Answer, ok, Failure}
use ingress_operator.Translator.Canary.{is_canary}
use ingress_operator.Controller.{Reconciler, class_of}
use ingress_operator.Controller.Siblings.{is_in_scope, is_canary_of, is_primary_of}
use ingress_operator.Controller.Canaries.{
  Returned, finished, failed, reconcile_primaries_among, reconcile_canary_primaries,
}

-- Each ingress in turn is reconciled, up to the first error.
abbrev pub stop_at :
    {State : Type 0} → (State → State × Returned) → State × Option Failure → State × Returned
stop_at continue (s, none) = continue s
stop_at continue (s, some e) = (s, failed e)

unfoldable pub reconcile_each :
    {State : Type 0}
    → (Ingress → State → State × Option Failure)
    → List Ingress
    → State
    → State × Returned
reconcile_each reconcile [] s = (s, finished)
reconcile_each reconcile (i ∷ is) s = stop_at (reconcile_each reconcile is) (reconcile i s)

stop_at_same :
    {State : Type 0} (f g : State → State × Returned)
    → ((s : State) → f s ≡ g s)
    → (x : State × Option Failure) → stop_at f x ≡ stop_at g x
stop_at_same f g h (s, none) = h s
stop_at_same f g h (s, some e) = refl

module _ (glob : Text → Text → Option Bool) (r : Reconciler) where
  -- findCanarySiblings finds the canary for the primary, and the primary is no canary itself and is
  -- not being deleted.
  abbrev pub folds_in : Ingress → Ingress → Bool
  folds_in canary primary =
      not (is_canary primary || primary.deleting) && is_canary_of glob r primary canary

  is_primary_of-folds_in :
      (canary primary : Ingress)
      → (is_canary canary && not canary.deleting && is_in_scope glob r canary) ≡ true
      → is_primary_of glob r canary primary ≡ folds_in canary primary
  unfolding is_canary_of is_primary_of
  is_primary_of-folds_in canary primary h = ground (
    arith,
    h,
    same_iff primary.name canary.name,
    same_iff canary.name primary.name,
    same_iff (class_of r.ingress_class_empty canary) (class_of r.ingress_class_empty primary),
    same_iff (class_of r.ingress_class_empty primary) (class_of r.ingress_class_empty canary),
  )

  module _ {State : Type 0} (list_ingresses : State → Text → Answer (List Ingress))
      (reconcile : Ingress → State → State × Option Failure) (canary : Ingress)
      (taken : (is_canary canary && not canary.deleting && is_in_scope glob r canary) ≡ true) where
    reconcile_primaries_among_lem :
        (siblings : List Ingress) (s : State)
        → reconcile_primaries_among list_ingresses reconcile glob r canary siblings s
          ≡ reconcile_each reconcile (keep (folds_in canary) siblings) s
    unfolding reconcile_primaries_among reconcile_each keep
    reconcile_primaries_among_lem [] s = refl
    reconcile_primaries_among_lem (p ∷ siblings) s =
        let rest = reconcile_primaries_among list_ingresses reconcile glob r canary siblings in
        ap (λ b. if b then stop_at rest (reconcile p s) else rest s)
          (is_primary_of-folds_in canary p taken)
        ∙ elim (Bool-cases (folds_in canary p)) [
          | inl b ↦
              rw b (stop_at_same rest _ (reconcile_primaries_among_lem siblings) (reconcile p s))
          | inr b ↦ rw b (reconcile_primaries_among_lem siblings s)
        ]

    -- Where the ingresses of the namespace are listed, and the canary is not being deleted and has
    -- a class that the reconciler looks after, reconcile_canary_primaries reconciles, in their order
    -- and up to the first error, exactly the ingresses that find the canary among their canaries,
    -- are no canaries themselves and are not being deleted.
    pub reconcile_canary_primaries-folds_in :
        (siblings : List Ingress) (s : State)
        → list_ingresses s canary.namespace ≡ ok siblings
        → reconcile_canary_primaries list_ingresses reconcile glob r canary s
          ≡ reconcile_each reconcile (keep (folds_in canary) siblings) s
    unfolding reconcile_canary_primaries
    reconcile_canary_primaries-folds_in siblings s h =
        rw (h, reconcile_canary_primaries) (reconcile_primaries_among_lem siblings s)
