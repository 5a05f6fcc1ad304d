-- ===== src/ReferenceGrant/Apply.antt =====
-- ApplyReferenceGrant and EnsureReferenceGrants leave foreign grants alone.
use ingress_operator.Prelude.{◌≡◌, Bool, false, Option, none, some, List, [], ◌∷◌}
use ingress_operator.Text.{Text, text_eq}
use ingress_operator.Kube.{Ingress, HttpRoute, ReferenceGrant}
use ingress_operator.Client.{Answer, ok, err, Client, IsLawful}
use ingress_operator.Translator.{Config, reference_grant_name}
use ingress_operator.Resource.{is_managed_by_us}
use ingress_operator.ReferenceGrant.{owned_by}
use ingress_operator.ReferenceGrant.Cleanup.{grant_namespace, grant_name}

-- What controllerutil.SetControllerReference does: it writes an owner reference, and no other
-- field that is modelled.
abbrev pub KeepsFields : Option (HttpRoute → ReferenceGrant → Answer ReferenceGrant) → Type 0
KeepsFields none = Unit
KeepsFields (some set) = (route : HttpRoute) (g g' : ReferenceGrant) → set route g ≡ ok g' → g' ≡ g

module _ {State : Type 0} (grants : Client State ReferenceGrant)
    (lawful : IsLawful grant_namespace grant_name grants)
    (list_ingresses : State → Text → Answer (List Ingress))
    (get_route : State → Text → Text → Answer HttpRoute)
    (set_owner : Option (HttpRoute → ReferenceGrant → Answer ReferenceGrant))
    (keeps : KeepsFields set_owner) (has_metric : Bool) (t : Config) where
  pub owned_by_lem :
      (s : State) (namespace : Text) (ingresses : List Ingress) (g g' : ReferenceGrant)
      (set : Option (HttpRoute → ReferenceGrant → Answer ReferenceGrant))
      → KeepsFields set
      → owned_by grants list_ingresses get_route set_owner has_metric t s namespace ingresses g set
        ≡ ok g'
      → g' ≡ g
  unfolding owned_by
  owned_by_lem s namespace [] g g' set k h = cc
  owned_by_lem s namespace (i ∷ []) g g' none k h = cc
  owned_by_lem s namespace (i ∷ []) g g' (some set) k h = go (get_route s namespace i.name) h
    where
      go :
          (a : Answer HttpRoute) → elim a [ err e ↦ ok g | ok route ↦ set route g ] ≡ ok g' → g' ≡ g
      go (ok route) e = k route g g' e
      go (err x) e = cc
  owned_by_lem s namespace (i ∷ j ∷ is) g g' none k h = cc
  owned_by_lem s namespace (i ∷ j ∷ is) g g' (some set) k h = cc

  module _ (n : Text) (foreign : ReferenceGrant)
      (unmanaged : is_managed_by_us foreign.annotations ≡ false) where
    -- The foreign grant is read.
    abbrev Kept : State → Type 0
    Kept s = grants.get_object s n reference_grant_name ≡ ok foreign
