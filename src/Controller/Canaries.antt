-- ===== src/Controller/Canaries.antt =====
-- The reconciliation of a canary: reconcileCanaryPrimaries of
-- internal/controller/ingress_controller.go. The list of a namespace's ingresses and
-- reconcileIngressToHTTPRoute are arguments.
pub mod Folded
use ingress_operator.Prelude.{Bool, Option, none, some, List, [], ◌∷◌, if◌then◌else◌}
use ingress_operator.Text.{Text}
use ingress_operator.Kube.{Ingress}
use ingress_operator.Client.{Answer, ok, err, Failure}
use ingress_operator.Controller.{Reconciler}
use ingress_operator.Controller.Siblings.{is_primary_of}

-- What reconcileCanaryPrimaries returns: to be called again later, an error, or neither.
pub data Returned : Type 0 where
  requeue_after_error finished : Returned
  failed : Failure → Returned

module _ {State : Type 0} (list_ingresses : State → Text → Answer (List Ingress))
    (reconcile : Ingress → State → State × Option Failure) (glob : Text → Text → Option Bool)
    (r : Reconciler) where
  -- The loop of reconcileCanaryPrimaries. It ends with the first error.
  unfoldable pub reconcile_primaries_among : Ingress → List Ingress → State → State × Returned
  reconcile_primaries_among canary [] s = (s, finished)
  reconcile_primaries_among canary (primary ∷ siblings) s =
      let (s', failure) = reconcile primary s in
      let passed_over = reconcile_primaries_among canary siblings s in
      let after = reconcile_primaries_among canary siblings s' in
      let reconciled : State × Returned = elim failure [ none ↦ after | some e ↦ (s', failed e) ] in
      if is_primary_of glob r canary primary then reconciled else passed_over

  -- reconcileCanaryPrimaries
  unfoldable pub reconcile_canary_primaries : Ingress → State → State × Returned
  unfolding reconcile_primaries_among
  reconcile_canary_primaries canary s = elim (list_ingresses s canary.namespace) [
    | err e ↦ (s, requeue_after_error)
    | ok siblings ↦ reconcile_primaries_among canary siblings s
  ]
