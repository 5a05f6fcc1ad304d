-- ===== src/HttpRoutes/Kept.antt =====
-- What each write of an HTTPRoute leaves as it was: what is read under another name.
use ingress_operator.Prelude.{
  ◌≡◌, refl, ◌∙◌, Bool, true, false, ◌&&◌, ◌==◌, Option, none, some, List,
}
use ingress_operator.Text.{Text, codes, text_eq}
use ingress_operator.Dict.{Dict}
use ingress_operator.Kube.{HttpRoute}
use ingress_operator.Client.{
  not_found, other, Failure, Answer, ok, err, Client, IsLawful, Outcome, done, fails, written,
}
use ingress_operator.HttpRoutes.{
  create_route, updated_route, update_result, write_found, apply_allowed, after, delete_result,
  metric,
}

abbrev pub route_namespace : HttpRoute → Text
route_namespace route = route.namespace

abbrev pub route_name : HttpRoute → Text
route_name route = route.name

abbrev pub annotations_of : HttpRoute → Dict Text
annotations_of route = route.annotations

pub ok-injective {ℓ} : {A : Type ℓ} (a b : A) → ok a ≡ ok b → a ≡ b
ok-injective a b h = cc

module _ {State : Type 0} (routes : Client State HttpRoute)
    (lawful : IsLawful route_namespace route_name routes)
    (list_routes : State → Text → Answer (List HttpRoute)) (has_metric : Bool) where
  -- What is read under a name, where each write is to another one.
  module _ (n m : Text) where
    -- The route has the name.
    abbrev pub named : HttpRoute → Bool
    named route = route.namespace == n && route.name == m

    pub create-kept :
        (s : State) (message : Text) (d : HttpRoute)
        → named d ≡ false
        → routes.get_object (create_route routes list_routes has_metric s message d).state n m
          ≡ routes.get_object s n m
    unfolding create_route
    create-kept s message d h = go (routes.create_object s d) refl
      where
        go :
            (a : Answer State)
            → routes.create_object s d ≡ a
            → routes.get_object
                (written s message
                  (metric routes list_routes has_metric (codes "create") d)
                  a).state
                n
                m
              ≡ routes.get_object s n m
        go (ok s') e = unfold written in (lawful.get-create s s' d n m e ∙ rw h refl)
        go (err x) e = unfold written fails in refl

    pub update_result-kept :
        (s : State) (d existing : HttpRoute) (a : Answer State)
        → routes.update_object s (updated_route routes list_routes has_metric existing d) ≡ a
        → named existing ≡ false
        → named d ≡ false
        → routes.get_object (update_result routes list_routes has_metric s d existing a).state n m
          ≡ routes.get_object s n m
    unfolding update_result written fails
    update_result-kept s d existing (ok s') e h k =
        lawful.get-update s s' (updated_route routes list_routes has_metric existing d) n m e
        ∙ rw h refl
    update_result-kept s d existing (err not_found) e h k =
        create-kept s (codes "failed to recreate HTTPRoute") d k
    update_result-kept s d existing (err (other x)) e h k = refl

    pub write_found-kept :
        (s : State) (d : HttpRoute) (a : Answer HttpRoute)
        → routes.get_object s d.namespace d.name ≡ a
        → named d ≡ false
        → routes.get_object (write_found routes list_routes has_metric s d a).state n m
          ≡ routes.get_object s n m
    unfolding write_found fails
    write_found-kept s d (err not_found) e h =
        create-kept s (codes "failed to create HTTPRoute") d h
    write_found-kept s d (err (other x)) e h = refl
    write_found-kept s d (ok existing) e h =
        let (p, q) = lawful.get-names s existing d.namespace d.name e in
        update_result-kept s d existing _ refl (rw (p, q) h) h

    pub apply_allowed-kept :
        (s : State) (d : HttpRoute) (a : Answer Bool)
        → named d ≡ false
        → routes.get_object (apply_allowed routes list_routes has_metric s d a).state n m
          ≡ routes.get_object s n m
    unfolding apply_allowed done fails
    apply_allowed-kept s d (err e) h = refl
    apply_allowed-kept s d (ok false) h = refl
    apply_allowed-kept s d (ok true) h = write_found-kept s d _ refl h

    pub delete_result-kept :
        (s : State) (r : HttpRoute) (a : Answer State)
        → routes.delete_object s r ≡ a
        → named r ≡ false
        → routes.get_object (delete_result routes list_routes has_metric s r a).state n m
          ≡ routes.get_object s n m
    unfolding delete_result written fails
    delete_result-kept s r (ok s') e h = lawful.get-delete s s' r n m e ∙ rw h refl
    delete_result-kept s r (err not_found) e h = refl
    delete_result-kept s r (err (other x)) e h = refl

    -- The outcome of two steps keeps what both keep.
    pub after-kept :
        (first : Outcome State) (next : State → Outcome State) (f : Option Failure) (x : HttpRoute)
        → routes.get_object first.state n m ≡ ok x
        → ((s : State)
            → routes.get_object s n m ≡ ok x
            → routes.get_object (next s).state n m ≡ ok x)
        → routes.get_object (after routes list_routes has_metric first next f).state n m ≡ ok x
    unfolding after
    after-kept first next none x h k = k first.state h
    after-kept first next (some f) x h k = h
