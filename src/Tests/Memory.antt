-- ===== src/Tests/Memory.antt =====
-- A cluster in memory: a client that keeps the objects of one kind in a list, the last written
-- one first.
use ingress_operator.Prelude.{subst, ◌≡◌, refl, ◌&&◌, List, [], ◌∷◌, ◌==◌, if◌then◌else◌, arith}
use ingress_operator.Text.{Text, text_eq, same_iff}
use ingress_operator.Client.{not_found, Answer, ok, err, Client, IsLawful}

ok-injective {ℓ} : {A : Type ℓ} (a b : A) → ok a ≡ ok b → a ≡ b
ok-injective a b h = cc

module _ {Object : Type 0} (namespace_of name_of : Object → Text) where
  unfoldable pub stored : List Object → Text → Text → Answer Object
  stored [] namespace name = err not_found
  stored (o ∷ s) namespace name =
      if namespace_of o == namespace && name_of o == name then ok o else stored s namespace name

  unfoldable pub without : List Object → Text → Text → List Object
  without [] namespace name = []
  without (o ∷ s) namespace name =
      let rest = without s namespace name in
      if namespace_of o == namespace && name_of o == name then rest else o ∷ rest

  unfoldable pub removed : List Object → Object → Answer Object → Answer (List Object)
  removed s o (ok found) = ok (without s (namespace_of o) (name_of o))
  removed s o (err e) = err e

  abbrev pub memory : Client (List Object) Object
  memory = record {
    get_object = stored;
    create_object = λ s o. ok (o ∷ s);
    update_object = λ s o. ok (o ∷ s);
    delete_object = λ s o. removed s o (stored s (namespace_of o) (name_of o));
  }

  stored-names :
      (s : List Object) (o : Object) (namespace name : Text)
      → stored s namespace name ≡ ok o
      → (namespace_of o ≡ namespace) × (name_of o ≡ name)
  unfolding stored
  stored-names [] o namespace name h = cc
  stored-names (p ∷ s) o namespace name h = ground (
    arith,
    stored-names s o namespace name,
    same_iff (namespace_of p) namespace,
    same_iff (name_of p) name,
    h,
  )

  stored-without :
      (s : List Object) (o : Object) (namespace name : Text)
      → stored (without s (namespace_of o) (name_of o)) namespace name ≡ (
          if namespace_of o == namespace && name_of o == name
          then err not_found
          else stored s namespace name)
  unfolding stored without
  stored-without [] o namespace name = ground arith
  stored-without (p ∷ s) o namespace name = ground (
    arith,
    stored-without s o namespace name,
    same_iff (namespace_of p) namespace,
    same_iff (name_of p) name,
    same_iff (namespace_of p) (namespace_of o),
    same_iff (name_of p) (name_of o),
    same_iff (namespace_of o) namespace,
    same_iff (name_of o) name,
  )

  created :
      (s s' : List Object) (o : Object) (namespace name : Text)
      → ok (o ∷ s) ≡ ok s'
      → stored s' namespace name ≡ (
          if namespace_of o == namespace && name_of o == name
          then ok o
          else stored s namespace name)
  unfolding stored
  created s s' o namespace name h =
      subst
        (λ t. stored t namespace name ≡ (
          if namespace_of o == namespace && name_of o == name
          then ok o
          else stored s namespace name))
        (ok-injective (o ∷ s) s' h) refl

  deleted :
      (s s' : List Object) (o : Object) (namespace name : Text) (a : Answer Object)
      → removed s o a ≡ ok s'
      → stored s' namespace name ≡ (
          if namespace_of o == namespace && name_of o == name
          then err not_found
          else stored s namespace name)
  unfolding removed
  deleted s s' o namespace name (ok found) h =
      subst
        (λ t. stored t namespace name ≡ (
          if namespace_of o == namespace && name_of o == name
          then err not_found
          else stored s namespace name))
        (ok-injective (without s (namespace_of o) (name_of o)) s' h)
        (stored-without s o namespace name)
  deleted s s' o namespace name (err e) h = cc

  missing :
      (s : List Object) (o : Object) (a : Answer Object)
      → removed s o a ≡ err not_found
      → a ≡ err not_found
  unfolding removed
  missing s o (ok found) h = cc
  missing s o (err e) h = cc

  pub memory-IsLawful : IsLawful namespace_of name_of memory
  memory-IsLawful = record {
    get-names = stored-names;
    get-create = created;
    get-update = created;
    get-delete = λ s s' o namespace name. deleted s s' o namespace name _;
    delete-not_found = λ s o h. missing s o _ h;
  }
