-- ===== src/ReferenceGrant/Granted.antt =====
-- What a successful ApplyReferenceGrant leaves in the cluster.
use ingress_operator.Prelude.{
  ◌≡◌, refl, ◌∙◌, sym, ap, subst, Bool, false, ◌||◌, not, Option, none, some, List, is_empty, inl,
  inr, ◌⊎◌, keep,
}
use ingress_operator.Text.{Text, codes, text_eq}
use ingress_operator.Text.Laws.{same_refl}
use ingress_operator.Kube.{Ingress, HttpRoute, ReferenceGrant}
use ingress_operator.Client.{
  not_found, plain, Answer, ok, err, Client, IsLawful, Outcome, fails, written,
}
use ingress_operator.Translator.{Config, reference_grant_name}
use ingress_operator.Resource.{is_managed_by_us}
use ingress_operator.ReferenceGrant.{
  other_sources, create_reference_grant, apply_existing, apply_owned, owned_by,
  apply_reference_grant, metric,
}
use ingress_operator.ReferenceGrant.Cleanup.{grant_namespace, grant_name}
use ingress_operator.ReferenceGrant.Apply.{KeepsFields, owned_by_lem}

module _ {State : Type 0} (grants : Client State ReferenceGrant)
    (lawful : IsLawful grant_namespace grant_name grants)
    (list_ingresses : State → Text → Answer (List Ingress))
    (get_route : State → Text → Text → Answer HttpRoute)
    (set_owner : Option (HttpRoute → ReferenceGrant → Answer ReferenceGrant))
    (keeps : KeepsFields set_owner) (has_metric : Bool) (t : Config) where
  -- The grant of a namespace says what `g` does.
  pub Granted : State → Text → ReferenceGrant → Type 0
  Granted s m g =
      (x : ReferenceGrant) × (grants.get_object s m reference_grant_name ≡ ok x)
      × (x.annotations ≡ g.annotations)
      × (x.from ≡ g.from)
      × (x.to ≡ g.to)

  -- There is no grant in the namespace, or one that may be written over.
  unfoldable pub Writable : State → Text → ReferenceGrant → Type 0
  Writable s m g =
      (grants.get_object s m reference_grant_name ≡ err not_found)
      ⊎ ((existing : ReferenceGrant) × (grants.get_object s m reference_grant_name ≡ ok existing)
          × ((not (is_managed_by_us existing.annotations) || other_sources existing g) ≡ false))

  created-Granted :
      (s : State) (m message : Text) (metrics : List (Text × Text × Text)) (g : ReferenceGrant)
      (a : Answer State)
      → grants.create_object s g ≡ a
      → g.namespace ≡ m
      → g.name ≡ reference_grant_name
      → (written s message metrics a).failure ≡ none
      → Granted (written s message metrics a).state m g
  unfolding written fails Granted
  created-Granted s m message metrics g (ok s') e hn hm success = (
    g,
    lawful.get-create s s' g m reference_grant_name e
        ∙ rw (hn, hm, same_refl m, same_refl reference_grant_name),
    refl,
    refl,
    refl,
  )
  created-Granted s m message metrics g (err x) e hn hm success = cc

  updated-Granted :
      (s : State) (m message : Text) (metrics : List (Text × Text × Text))
      (g existing : ReferenceGrant) (a : Answer State)
      → grants.update_object s
          (record existing { from = g.from; to = g.to; annotations = g.annotations })
        ≡ a
      → existing.namespace ≡ m
      → existing.name ≡ reference_grant_name
      → (written s message metrics a).failure ≡ none
      → Granted (written s message metrics a).state m g
  unfolding written fails Granted
  updated-Granted s m message metrics g existing (ok s') e hn hm success = (
    record existing { from = g.from; to = g.to; annotations = g.annotations },
    lawful.get-update s s' _ m reference_grant_name e
        ∙ rw (hn, hm, same_refl m, same_refl reference_grant_name),
    refl,
    refl,
    refl,
  )
  updated-Granted s m message metrics g existing (err x) e hn hm success = cc

  abbrev outcome : State → Text → ReferenceGrant → Outcome State
  outcome s m g = apply_owned grants list_ingresses get_route set_owner has_metric t s m g

  apply_owned-Granted :
      (s : State) (m : Text) (g : ReferenceGrant)
      → g.namespace ≡ m
      → g.name ≡ reference_grant_name
      → Writable s m g
      → (outcome s m g).failure ≡ none
      → Granted (outcome s m g).state m g
  unfolding apply_owned apply_existing Writable
  apply_owned-Granted s m g hn hm (inl e) =
      let p : outcome s m g
          ≡ written s (codes "failed to create ReferenceGrant")
              (metric grants list_ingresses get_route set_owner has_metric t (codes "create") m)
              (grants.create_object s g) =
        rw (e, apply_owned) in
      subst (λ o. o.failure ≡ none → Granted o.state m g) (sym p)
        (created-Granted s m _ _ g _ refl hn hm)
  apply_owned-Granted s m g hn hm (inr (existing, e, b)) =
      let names = lawful.get-names s existing m reference_grant_name e in
      let p : outcome s m g
          ≡ written s (codes "failed to update ReferenceGrant")
              (metric grants list_ingresses get_route set_owner has_metric t (codes "update") m)
              (grants.update_object s
                (record existing { from = g.from; to = g.to; annotations = g.annotations })) =
        rw (e, apply_owned) (rw b) in
      subst (λ o. o.failure ≡ none → Granted o.state m g) (sym p)
        (updated-Granted s m _ _ g existing _ refl names.0 names.1)

  -- The grant that is made for a namespace whose ingresses are listed.
  abbrev pub made : Text → List Ingress → ReferenceGrant
  made m ingresses =
      create_reference_grant t m (keep (λ ingress. not (is_empty ingress.tls)) ingresses)

  -- Where the ingresses of a namespace are listed, and it has no grant or one that may be written
  -- over, an apply that succeeds leaves a grant with the annotations, origin and targets that are made
  -- for the listed ingresses with TLS.
  pub apply_reference_grant-Granted :
      (s : State) (m : Text) (ingresses : List Ingress)
      → list_ingresses s m ≡ ok ingresses
      → Writable s m (made m ingresses)
      → (apply_reference_grant grants list_ingresses get_route set_owner has_metric t s m).failure
        ≡ none
      → Granted
          (apply_reference_grant grants list_ingresses get_route set_owner has_metric t s m).state
          m
          (made m ingresses)
  unfolding apply_reference_grant fails
  apply_reference_grant-Granted s m ingresses listed writable = go _ refl
    where
      go :
          (a : Answer ReferenceGrant)
          → owned_by grants list_ingresses get_route set_owner has_metric t s m
              (keep (λ ingress. not (is_empty ingress.tls)) ingresses)
              (made m ingresses)
              set_owner
            ≡ a
          → (apply_reference_grant grants list_ingresses get_route set_owner has_metric t s
              m).failure
            ≡ none
          → Granted
              (apply_reference_grant grants list_ingresses get_route set_owner has_metric t s
                m).state
              m
              (made m ingresses)
      go (err e) h success =
          let p : apply_reference_grant grants list_ingresses get_route set_owner has_metric t s m
              ≡ fails s (plain e) =
            rw (listed, apply_reference_grant) (rw h) in
          let q : some (plain e) ≡ none = sym (ap (λ (o : Outcome State). o.failure) p) ∙ success in
          cc
      go (ok g') h success =
          let same_grant =
            owned_by_lem grants lawful list_ingresses get_route set_owner keeps has_metric t s m _
              (made m ingresses) g' set_owner keeps h in
          let p : apply_reference_grant grants list_ingresses get_route set_owner has_metric t s m
              ≡ outcome s m (made m ingresses) =
            rw (listed, apply_reference_grant) (rw h (ap (outcome s m) same_grant)) in
          subst (λ o. o.failure ≡ none → Granted o.state m (made m ingresses)) (sym p)
            (apply_owned-Granted s m (made m ingresses) (unfold create_reference_grant in refl)
              (unfold create_reference_grant in refl) writable)
            success
