-- ===== src/ReferenceGrant/Kept.antt =====
-- What CleanupReferenceGrantIfNeeded may touch.
use ingress_operator.Prelude.{
  ◌≡◌, refl, ◌∙◌, true, ◌&&◌, none, List, [], ◌==◌, if◌then◌else◌, is_empty, arith, Bool-cases, inl,
  inr, ◌⊎◌,
}
use ingress_operator.Text.{Text, codes, text_eq, same_iff, join}
use ingress_operator.Dict.{get, insert}
use ingress_operator.Values.{split_sources, remove_string}
use ingress_operator.Kube.{ReferenceGrant}
use ingress_operator.Client.{
  not_found, other, plain, Answer, ok, err, Client, IsLawful, Outcome, done, fails, written,
}
use ingress_operator.Translator.{source_annotation, reference_grant_name, qualified}
use ingress_operator.Resource.{is_managed_by_us_with_ingress}
use ingress_operator.ReferenceGrant.{deleted, cleanup_found, cleanup_reference_grant_if_needed}
use ingress_operator.ReferenceGrant.Cleanup.{grant_namespace, grant_name}

module _ {State : Type 0} (grants : Client State ReferenceGrant) where
  -- The namespace has a grant, and it is managed with the ingress.
  abbrev pub HasManagedGrant : State → Text → Text → Type 0
  HasManagedGrant s namespace name =
      (grant : ReferenceGrant) × (grants.get_object s namespace reference_grant_name ≡ ok grant)
      × (is_managed_by_us_with_ingress grant.annotations namespace name ≡ true)

  -- The object at a place is read as before, or else the operation succeeded, the place is that of
  -- the grant of the namespace, and this grant was managed with the ingress.
  abbrev pub IsKeptAt : State → Text → Text → Text → Text → Outcome State → Type 0
  IsKeptAt s namespace name n m out =
      (grants.get_object out.state n m ≡ grants.get_object s n m)
      ⊎ ((out.failure ≡ none)
          × (namespace ≡ n)
          × (reference_grant_name ≡ m)
          × HasManagedGrant s namespace name)

  module _ (lawful : IsLawful grant_namespace grant_name grants) (s : State)
      (namespace name n m : Text) where
    written_at :
        (x : Answer ReferenceGrant) (grant : ReferenceGrant) (s' : State)
        → (grant.namespace ≡ namespace) × (grant.name ≡ reference_grant_name)
        → HasManagedGrant s namespace name
        → grants.get_object s' n m
          ≡ (if grant.namespace == n && grant.name == m then x else grants.get_object s n m)
        → IsKeptAt s namespace name n m (record { state = s'; metrics = []; failure = none })
    written_at x grant s' (ens, en) h e =
        elim (Bool-cases (namespace == n && reference_grant_name == m)) [
          | inl b ↦ inr (
            refl,
            (same_iff namespace n).0 (ground (arith, b)),
            (same_iff reference_grant_name m).0 (ground (arith, b)),
            h,
          )
          | inr b ↦ inl (e ∙ rw (ens, en) (rw b refl))
        ]

    deleted-IsKeptAt :
        (grant : ReferenceGrant) (a : Answer State)
        → grants.delete_object s grant ≡ a
        → (grant.namespace ≡ namespace) × (grant.name ≡ reference_grant_name)
        → HasManagedGrant s namespace name
        → IsKeptAt s namespace name n m (deleted grants s a)
    unfolding deleted done fails
    deleted-IsKeptAt grant (ok s') e names h =
        written_at _ grant s' names h (lawful.get-delete s s' grant n m e)
    deleted-IsKeptAt grant (err not_found) e names h = inl refl
    deleted-IsKeptAt grant (err (other x)) e names h = inl refl

    written-IsKeptAt :
        (grant : ReferenceGrant) (message : Text) (a : Answer State)
        → grants.update_object s grant ≡ a
        → (grant.namespace ≡ namespace) × (grant.name ≡ reference_grant_name)
        → HasManagedGrant s namespace name
        → IsKeptAt s namespace name n m (written s message [] a)
    unfolding written fails
    written-IsKeptAt grant message (ok s') e names h =
        written_at _ grant s' names h (lawful.get-update s s' grant n m e)
    written-IsKeptAt grant message (err x) e names h = inl refl

    cleanup_found-IsKeptAt :
        (grant : ReferenceGrant)
        → grants.get_object s namespace reference_grant_name ≡ ok grant
        → IsKeptAt s namespace name n m (cleanup_found grants s grant namespace name)
    unfolding cleanup_found done
    cleanup_found-IsKeptAt grant e =
        let sources : List Text = split_sources (get source_annotation grant.annotations) in
        let q : Text = qualified namespace name in
        let updated : ReferenceGrant = record grant {
          annotations =
              insert source_annotation (join (remove_string sources q) (codes ","))
                grant.annotations;
        } in
        let names = lawful.get-names s grant namespace reference_grant_name e in
        elim (Bool-cases (is_managed_by_us_with_ingress grant.annotations namespace name)) [
          | inl b ↦ rw b (elim (Bool-cases (is_empty (remove_string sources q))) [
            | inl i ↦ rw i (deleted-IsKeptAt grant _ refl names (grant, e, b))
            | inr i ↦ rw i (written-IsKeptAt updated _ _ refl names (grant, e, b))
          ])
          | inr b ↦ rw b (inl refl)
        ]

  -- Under a lawful client, whatever object is read after a cleanup is as it was before, unless the
  -- cleanup returned no error, the object is the grant of the namespace, and this grant was managed
  -- with the ingress.
  pub cleanup_reference_grant_if_needed-IsKeptAt :
      (lawful : IsLawful grant_namespace grant_name grants) (s : State) (namespace name n m : Text)
      → IsKeptAt s namespace name n m (cleanup_reference_grant_if_needed grants s namespace name)
  unfolding cleanup_reference_grant_if_needed done fails
  cleanup_reference_grant_if_needed-IsKeptAt lawful s namespace name n m =
      go (grants.get_object s namespace reference_grant_name) refl
    where
      go :
          (a : Answer ReferenceGrant)
          → grants.get_object s namespace reference_grant_name ≡ a
          → IsKeptAt s namespace name n m
              (cleanup_reference_grant_if_needed grants s namespace name)
      go (err not_found) e =
          let same_state : cleanup_reference_grant_if_needed grants s namespace name ≡ done s =
            rw (e, cleanup_reference_grant_if_needed) refl in
          rw same_state (inl refl)
      go (err (other x)) e =
          let same_state : cleanup_reference_grant_if_needed grants s namespace name
              ≡ fails s (plain (other x)) =
            rw (e, cleanup_reference_grant_if_needed) refl in
          rw same_state (inl refl)
      go (ok grant) e =
          let found : cleanup_reference_grant_if_needed grants s namespace name
              ≡ cleanup_found grants s grant namespace name =
            rw (e, cleanup_reference_grant_if_needed) refl in
          rw found (cleanup_found-IsKeptAt lawful s namespace name n m grant e)
