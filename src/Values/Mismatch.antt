-- ===== src/Values/Mismatch.antt =====
-- The annotation of mismatched certificates: MergeCertificateMismatchAnnotation and
-- RemoveCertMismatchEntries.
use ingress_operator.Prelude.{
  ◌≡◌, ◌≢◌, refl, true, false, Bool, not, ◌||◌, List, [], ◌∷◌, arith, ◌==◌, contains, All, Distinct,
  ap, ◌∙◌, Bool-cases, inl, inr, keep, some_of, All-keep, contains-All, All-at, Option, none, some,
}
use ingress_operator.Text.{Text, codes, text_eq, same_iff, join, tokens, is_space, has_prefix}
use ingress_operator.Text.Laws.{same_ne}
use ingress_operator.Text.Split.{IsToken, tokens-IsToken, tokens-join, tokens-nil}
use ingress_operator.Dict.{
  Dict, IsMap, keys, lookup, insert, lookup-insert, insert-IsMap, contains-keys, keys-Distinct,
  MapOrder,
}
use ingress_operator.Values.{
  add_all, merge_certificate_mismatch_annotation, mismatch_prefix, remove_cert_mismatch_entries,
}

-- The entries of the annotation.
abbrev pub entries : Text → List Text
entries = tokens b';'

found : Option Bool → Bool
found none = false
found (some v) = true

lookup-add_all :
    (k : Text) (vs : List Text) (d : Dict Bool)
    → found (lookup k (add_all vs d)) ≡ (contains vs k || found (lookup k d))
unfolding add_all contains found
lookup-add_all k [] d = refl
lookup-add_all k (v ∷ vs) d =
    ground (arith, lookup-add_all k vs (insert v true d), lookup-insert k v true d)

add_all-IsMap : (vs : List Text) (d : Dict Bool) → IsMap d → IsMap (add_all vs d)
unfolding add_all
add_all-IsMap [] d h = h
add_all-IsMap (v ∷ vs) d h = add_all-IsMap vs (insert v true d) (insert-IsMap v true d h)

contains-keys_set : (k : Text) (d : Dict Bool) → contains (keys d) k ≡ found (lookup k d)
unfolding found
contains-keys_set k d = ground (arith, contains-keys k d)

entries-join : (vs : List Text) → All (IsToken b';') vs → entries (join vs (codes "; ")) ≡ vs
entries-join vs h =
    tokens-join b';' (32 ∷ []) (unfold is_space in refl, tt) (unfold contains in refl) vs h

module _ (order : MapOrder) (existing desired : Text) where
  values_map : Dict Bool
  values_map = add_all (entries desired) (add_all (entries existing) [])

  values_map-IsMap : IsMap values_map
  unfolding values_map
  values_map-IsMap = add_all-IsMap (entries desired) _ (add_all-IsMap (entries existing) [] tt)

  values : List Text
  values = keys (order.arrange Bool values_map)

  contains-values :
      (s : Text)
      → contains values s ≡ (contains (entries existing) s || contains (entries desired) s)
  unfolding values
  contains-values s =
      contains-keys_set s (order.arrange Bool values_map)
      ∙ ap found (order.lookup-arrange Bool values_map s values_map-IsMap)
      ∙ unfold values_map found lookup in
        ground (
          arith,
          lookup-add_all s (entries desired) (add_all (entries existing) []),
          lookup-add_all s (entries existing) [],
        )

  values-IsToken : All (IsToken b';') values
  values-IsToken = contains-All (IsToken b';') values (λ a h.
      elim (Bool-cases (contains (entries existing) a)) [
        | inl k ↦ All-at (IsToken b';') (entries existing) a (tokens-IsToken b';' existing) k
        | inr k ↦
            All-at (IsToken b';') (entries desired) a (tokens-IsToken b';' desired)
              (ground (arith, contains-values a, h, k))
      ])

  -- In whatever order the map is ranged over, two filled annotations are merged into one that
  -- lists each entry of either once, and no other.
  pub merge_certificate_mismatch_annotation-entries :
      existing ≢ []
      → desired ≢ []
      → Distinct (entries (merge_certificate_mismatch_annotation order existing desired))
        × ((s : Text)
            → contains (entries (merge_certificate_mismatch_annotation order existing desired)) s
              ≡ (contains (entries existing) s || contains (entries desired) s))
  unfolding merge_certificate_mismatch_annotation values values_map
  merge_certificate_mismatch_annotation-entries he hd =
      rw (same_ne existing [] he, same_ne desired [] hd)
        (rw (entries-join values values-IsToken)
          (keys-Distinct _ (order.arrange-IsMap Bool values_map values_map-IsMap), contains-values))

-- What is left of an annotation are its entries, in order, without those of the given hostnames.
pub entries-remove_cert_mismatch_entries :
    (cert_mismatch : Text) (hostname_mappings : Dict Text)
    → entries (remove_cert_mismatch_entries cert_mismatch hostname_mappings)
      ≡ keep
          (λ entry. not (some_of (λ m. has_prefix entry (mismatch_prefix m)) hostname_mappings))
          (entries cert_mismatch)
unfolding remove_cert_mismatch_entries
entries-remove_cert_mismatch_entries cert_mismatch mappings =
    elim (Bool-cases (cert_mismatch == [])) [
      | inl e ↦ rw (e, (same_iff cert_mismatch []).0 e, tokens-nil) (unfold keep in refl)
      | inr e ↦
          rw e (entries-join _ (All-keep (IsToken b';') _ _ (tokens-IsToken b';' cert_mismatch)))
    ]
