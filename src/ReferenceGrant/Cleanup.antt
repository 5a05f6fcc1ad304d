-- ===== src/ReferenceGrant/Cleanup.antt =====
-- What CleanupReferenceGrantIfNeeded leaves in the cluster.
use ingress_operator.Prelude.{
  ◌≡◌, refl, ◌∙◌, sym, ap₂, Bool, true, false, ◌&&◌, not, none, List, [], ◌∷◌, ◌==◌, if◌then◌else◌,
  is_empty, contains, All, Bool-cases, inl, inr,
}
use ingress_operator.Text.{Text, codes, text_eq, join}
use ingress_operator.Text.Split.{tokens-IsToken, tokens-join}
use ingress_operator.Text.Laws.{same_refl}
use ingress_operator.Dict.{get, insert, get-insert}
use ingress_operator.Kube.{ReferenceGrant}
use ingress_operator.Values.{split_sources, remove_string}
use ingress_operator.Values.Comma.{IsValue, contains_string_lem, contains_string-remove_string}
use ingress_operator.Client.{
  not_found, other, Answer, ok, err, Client, IsLawful, done, fails, written,
}
use ingress_operator.Translator.{source_annotation, reference_grant_name, qualified}
use ingress_operator.Resource.{is_managed_by_us_with_ingress}
use ingress_operator.ReferenceGrant.{deleted, cleanup_reference_grant_if_needed}

abbrev pub grant_namespace : ReferenceGrant → Text
grant_namespace g = g.namespace

abbrev pub grant_name : ReferenceGrant → Text
grant_name g = g.name

-- Whether a grant that was read lists a source.
abbrev pub lists : Answer ReferenceGrant → Text → Bool
lists (ok grant) q = contains (split_sources (get source_annotation grant.annotations)) q
lists (err e) q = false

remove_string-All :
    (q : Text) (sources : List Text) → All IsValue sources → All IsValue (remove_string sources q)
unfolding remove_string
remove_string-All q [] h = tt
remove_string-All q (s ∷ sources) (hs, h) = elim (Bool-cases (s == q)) [
  | inl e ↦ rw e (remove_string-All q sources h)
  | inr e ↦ rw e (hs, remove_string-All q sources h)
]

-- The remaining sources are read back from their annotation.
remaining_sources :
    (source q : Text)
    → split_sources (join (remove_string (split_sources source) q) (codes ","))
      ≡ remove_string (split_sources source) q
unfolding split_sources
remaining_sources source q =
    tokens-join b',' [] tt (unfold contains in refl) _
      (remove_string-All q _ (tokens-IsToken b',' source))

contains-remaining :
    (sources : List Text) (q p : Text)
    → contains (remove_string sources q) p ≡ (contains sources p && not (q == p))
contains-remaining sources q p =
    sym (contains_string_lem (remove_string sources q) p)
    ∙ contains_string-remove_string sources q p
    ∙ rw contains_string_lem

none_remaining :
    (sources : List Text) (q p : Text)
    → is_empty (remove_string sources q) ≡ true
    → (contains sources p && not (q == p)) ≡ false
none_remaining sources q p h = sym (contains-remaining sources q p) ∙ go (remove_string sources q) h
  where
    go : (xs : List Text) → is_empty xs ≡ true → contains xs p ≡ false
    go [] e = unfold contains in refl
    go (x ∷ xs) e = cc

module _ {State : Type 0} (grants : Client State ReferenceGrant)
    (lawful : IsLawful grant_namespace grant_name grants) where
  module _ (s : State) (namespace name : Text) (grant : ReferenceGrant)
      (present : grants.get_object s namespace reference_grant_name ≡ ok grant) where
    q : Text
    q = qualified namespace name

    sources : List Text
    sources = split_sources (get source_annotation grant.annotations)

    names : (grant.namespace ≡ namespace) × (grant.name ≡ reference_grant_name)
    names = lawful.get-names s grant namespace reference_grant_name present

    deleted-lists :
        (a : Answer State)
        → grants.delete_object s grant ≡ a
        → is_empty (remove_string sources q) ≡ true
        → (deleted grants s a).failure ≡ none
        → (p : Text)
        → lists (grants.get_object (deleted grants s a).state namespace reference_grant_name) p
          ≡ (contains sources p && not (q == p))
    unfolding deleted done fails
    deleted-lists (ok s') e empty success p =
        rw
          (
            lawful.get-delete s s' grant namespace reference_grant_name e,
            names.0,
            names.1,
            same_refl namespace,
            same_refl reference_grant_name,
          )
          (sym (none_remaining sources q p empty))
    deleted-lists (err not_found) e empty success p =
        rw
          (
            sym (ap₂ (λ a b. grants.get_object s a b) names.0 names.1),
            lawful.delete-not_found s grant e,
          )
          (sym (none_remaining sources q p empty))
    deleted-lists (err (other m)) e empty success p = cc

    updated-lists :
        (a : Answer State) (message : Text)
        → let updated : ReferenceGrant = record grant {
          annotations =
              insert source_annotation
                (join (remove_string sources q) (codes ","))
                grant.annotations;
        } in
          grants.update_object s updated ≡ a
          → (written s message [] a).failure ≡ none
          → (p : Text)
          → lists
              (grants.get_object (written s message [] a).state namespace reference_grant_name)
              p
            ≡ (contains sources p && not (q == p))
    unfolding written fails sources
    updated-lists (ok s') message e success p =
        rw
          (
            lawful.get-update s s' _ namespace reference_grant_name e,
            names.0,
            names.1,
            same_refl namespace,
            same_refl reference_grant_name,
          )
          (rw (get-insert, same_refl source_annotation, remaining_sources)
            (contains-remaining sources q p))
    updated-lists (err x) message e success p = cc

    updated_grant : ReferenceGrant
    updated_grant = record grant {
      annotations =
          insert source_annotation (join (remove_string sources q) (codes ",")) grant.annotations;
    }

    managed_lem :
        is_managed_by_us_with_ingress grant.annotations namespace name ≡ true
        → cleanup_reference_grant_if_needed grants s namespace name ≡ (
            if is_empty (remove_string sources q)
            then deleted grants s (grants.delete_object s grant)
            else written s
                (codes "failed to update ReferenceGrant")
                []
                (grants.update_object s updated_grant))
    unfolding cleanup_reference_grant_if_needed sources q updated_grant
    managed_lem managed = rw (present, cleanup_reference_grant_if_needed) (rw managed)

    -- A successful cleanup of a grant that is managed with the ingress takes its name from the
    -- sources that the grant lists, and no other: a grant that is deleted listed no other.
    pub lists-cleanup_reference_grant_if_needed :
        is_managed_by_us_with_ingress grant.annotations namespace name ≡ true
        → (cleanup_reference_grant_if_needed grants s namespace name).failure ≡ none
        → (p : Text)
        → lists
            (grants.get_object
              (cleanup_reference_grant_if_needed grants s namespace name).state
              namespace
              reference_grant_name)
            p
          ≡ (lists (grants.get_object s namespace reference_grant_name) p
              && not (qualified namespace name == p))
    unfolding sources q updated_grant
    lists-cleanup_reference_grant_if_needed managed success p =
        rw (managed_lem managed, present)
          (elim (Bool-cases (is_empty (remove_string sources q))) [
            | inl e ↦ rw e (
                deleted-lists (grants.delete_object s grant) refl e
                  (rw (managed_lem managed, e) at success) p)
            | inr e ↦ rw e (
                updated-lists (grants.update_object s updated_grant)
                  (codes "failed to update ReferenceGrant") refl
                  (rw (managed_lem managed, e) at success) p)
          ])
