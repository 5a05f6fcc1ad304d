-- ===== src/Dict.antt =====
-- Go's maps with text keys, as association lists.
use ingress_operator.Prelude.{
  ◌≡◌, refl, true, false, Option, none, some, List, [], ◌∷◌, arith, ◌==◌, if◌then◌else◌, contains,
  Distinct,
}
use ingress_operator.Text.{Text, text_eq, same_iff}

abbrev pub Dict {ℓ} : Type ℓ → Type ℓ
Dict V = List (Text × V)

unfoldable pub keys {ℓ} : {V : Type ℓ} → Dict V → List Text
keys [] = []
keys ((k, v) ∷ d) = k ∷ keys d

module _ {ℓ} {V : Type ℓ} where
  unfoldable pub lookup : Text → Dict V → Option V
  lookup k [] = none
  lookup k ((j, v) ∷ d) = if j == k then some v else lookup k d

  -- `d[k] = v`
  unfoldable pub insert : Text → V → Dict V → Dict V
  insert k v [] = (k, v) ∷ []
  insert k v ((j, w) ∷ d) = if j == k then (k, v) ∷ d else (j, w) ∷ insert k v d

  -- `delete(d, k)`
  unfoldable pub delete : Text → Dict V → Dict V
  delete k [] = []
  delete k ((j, w) ∷ d) = let rest = delete k d in if j == k then rest else (j, w) ∷ rest

  -- `for k, v := range e { d[k] = v }`
  unfoldable pub insert_all : Dict V → Dict V → Dict V
  insert_all [] d = d
  insert_all ((k, v) ∷ e) d = insert_all e (insert k v d)

  -- Every key stands once: what a map guarantees.
  abbrev pub IsMap : Dict V → Type ℓ
  IsMap [] = Unit
  IsMap ((k, v) ∷ d) = (lookup k d ≡ none) × IsMap d

-- `d[k]` on a map of texts: the empty text where the key is missing.
unfoldable pub get : Text → Dict Text → Text
get k d = elim (lookup k d) [ none ↦ [] | some v ↦ v ]

module _ {ℓ} {V : Type ℓ} where
  pub lookup-insert :
      (j k : Text) (v : V) (d : Dict V)
      → lookup j (insert k v d) ≡ (if k == j then some v else lookup j d)
  unfolding lookup insert
  lookup-insert j k v [] = refl
  lookup-insert j k v ((i, w) ∷ d) =
      ground (arith, same_iff k j, same_iff i k, same_iff i j, lookup-insert j k v d)

  pub lookup-delete :
      (j k : Text) (d : Dict V) → lookup j (delete k d) ≡ (if k == j then none else lookup j d)
  unfolding lookup delete
  lookup-delete j k [] = ground arith
  lookup-delete j k ((i, w) ∷ d) =
      ground (arith, same_iff k j, same_iff i k, same_iff i j, lookup-delete j k d)

  pub delete-IsMap : (k : Text) (d : Dict V) → IsMap d → IsMap (delete k d)
  unfolding lookup delete
  delete-IsMap k [] h = tt
  delete-IsMap k ((j, w) ∷ d) h = ground (arith, delete-IsMap k d h.1, lookup-delete j k d)

  pub insert-IsMap : (k : Text) (v : V) (d : Dict V) → IsMap d → IsMap (insert k v d)
  unfolding lookup insert
  insert-IsMap k v [] h = (refl, tt)
  insert-IsMap k v ((j, w) ∷ d) h =
      ground (arith, insert-IsMap k v d h.1, lookup-insert j k v d, same_iff j k, same_iff k j)

  pub insert_all-IsMap : (e d : Dict V) → IsMap d → IsMap (insert_all e d)
  unfolding insert_all
  insert_all-IsMap [] d h = h
  insert_all-IsMap ((k, v) ∷ e) d h = insert_all-IsMap e (insert k v d) (insert-IsMap k v d h)

  -- The entries of the map that is ranged over win.
  pub lookup-insert_all :
      (j : Text) (e d : Dict V)
      → IsMap e
      → lookup j (insert_all e d) ≡ elim (lookup j e) [ none ↦ lookup j d | some v ↦ some v ]
  unfolding lookup insert_all
  lookup-insert_all j [] d h = refl
  lookup-insert_all j ((k, v) ∷ e) d h =
      ground (arith, lookup-insert_all j e (insert k v d) h.1, lookup-insert j k v d, same_iff k j)

  pub contains-keys :
      (k : Text) (d : Dict V)
      → contains (keys d) k ≡ elim (lookup k d) [ none ↦ false | some v ↦ true ]
  unfolding lookup keys contains
  contains-keys k [] = refl
  contains-keys k ((j, v) ∷ d) = ground (arith, contains-keys k d)

pub get-insert :
    (j k v : Text) (d : Dict Text) → get j (insert k v d) ≡ (if k == j then v else get j d)
unfolding get
get-insert j k v d = ground (arith, lookup-insert j k v d)

pub keys-Distinct {ℓ} : {V : Type ℓ} (d : Dict V) → IsMap d → Distinct (keys d)
unfolding keys
keys-Distinct [] h = tt
keys-Distinct ((k, v) ∷ d) h = (rw (contains-keys, h.0), keys-Distinct d h.1)

-- The order in which Go ranges over a map is not specified: it is an argument of the code that
-- depends on it. A range visits every entry once.
pub record MapOrder : Type 1 where
  pub arrange : (V : Type 0) → Dict V → Dict V
  pub arrange-IsMap : (V : Type 0) (d : Dict V) → IsMap d → IsMap (arrange V d)
  pub lookup-arrange :
      (V : Type 0) (d : Dict V) (k : Text) → IsMap d → lookup k (arrange V d) ≡ lookup k d

-- The order of insertion is one.
abbrev pub insertion_order : MapOrder
insertion_order = record {
  arrange = λ V d. d;
  arrange-IsMap = λ V d h. h;
  lookup-arrange = λ V d k h. refl;
}
