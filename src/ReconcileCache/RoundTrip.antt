-- ===== src/ReconcileCache/RoundTrip.antt =====
-- SaveReconcileCacheSharded and LoadReconcileCacheSharded: what a save leaves, a load finds.
use ingress_operator.Prelude.{
  ℕ, zero, suc, ◌+◌, ◌<◌, ◌≤◌, ◌≡◌, refl, ◌∙◌, ap, sym, subst, Bool, ◌&&◌, Option, none, some, [],
  ◌==◌, nat_eq, ltb, leb, if◌then◌else◌, arith, inl, inr, Bool-cases,
}
use ingress_operator.Text.{Text}
use ingress_operator.Dict.{Dict, IsMap, lookup}
use ingress_operator.Number.{ℤ, sub_ℕ}
use ingress_operator.Client.{Failure, ok, Client, IsLawful}
use ingress_operator.ReconcileCache.{
  ReconcileCacheEntry, ConfigMap, read_entries, shard_content, reconcile_cache_shard_for_key,
  load_shards, load_reconcile_cache_sharded, save_next, save_shard, save_shards,
  save_reconcile_cache_sharded, at_least_one, reconcile_cache_ttl,
}
use ingress_operator.ReconcileCache.Entry.{IsEntry, reconcile_cache_shard_for_key_lt}
use ingress_operator.ReconcileCache.Shards.{fresh, or_entry, lookup-shard}
use ingress_operator.ReconcileCache.Written.{
  map_namespace, map_name, read, Holds, Written, save_shard-Written,
}

module _ {State : Type 0} (config_maps : Client State ConfigMap)
    (lawful : IsLawful map_namespace map_name config_maps) (namespace base_name : Text) (n : ℕ)
    (cache : Dict ReconcileCacheEntry) where
  -- The shards of a range hold their parts of the cache, and those before it what they held.
  abbrev Saved : ℕ → ℕ → State → State → Type 0
  Saved rest i s s' =
      ((j : ℕ)
        → i ≤ j
        → j < i + rest
        → Holds config_maps lawful namespace base_name s' j (shard_content n j cache []))
      × ((j : ℕ)
          → j < i
          → read config_maps lawful namespace base_name s' j
            ≡ read config_maps lawful namespace base_name s j)

  next-Saved :
      (rest i : ℕ) (s s' : State)
      → ((s₁ : State)
          → save_shards config_maps namespace base_name n cache rest (suc i) s₁ ≡ (s', none)
          → Saved rest (suc i) s₁ s')
      → (p : State × Option Failure)
      → save_shard config_maps namespace base_name s i (shard_content n i cache []) ≡ p
      → save_next config_maps namespace base_name
          (save_shards config_maps namespace base_name n cache rest (suc i))
          p
        ≡ (s', none)
      → Saved (suc rest) i s s'
  unfolding save_next Written
  next-Saved rest i s s' ih (s₁, some f) e h = cc
  next-Saved rest i s s' ih (s₁, none) e h =
      let w = save_shard-Written config_maps lawful namespace base_name s s₁ i _ e in
      let r = ih s₁ h in
      (
        λ j a b. elim (Bool-cases (i == j)) [
          | inl q ↦
              subst
                (λ k.
                  Holds config_maps lawful namespace base_name s' k (shard_content n k cache []))
                (ground (arith, q)) (w.0.0, r.1 i (omega arith) ∙ w.0.1, w.0.2)
          | inr q ↦ r.0 j (ground (arith, q, a)) (omega (arith, b))
        ],
        λ j a. r.1 j (omega (arith, a)) ∙ w.1 j (λ q. absurd (omega (arith, a, q))),
      )

  -- After a successful save from a shard on, each of these shards holds its part of the cache,
  -- and the others what they held.
  save_shards-Saved :
      (rest i : ℕ) (s s' : State)
      → save_shards config_maps namespace base_name n cache rest i s ≡ (s', none)
      → Saved rest i s s'
  unfolding save_shards
  save_shards-Saved zero i s s' h = (
    λ j a b. absurd (omega (arith, a, b)),
    λ j a.
        ap (λ (p : State × Option Failure). read config_maps lawful namespace base_name p.0 j)
          (sym h),
  )
  save_shards-Saved (suc rest) i s s' h =
      next-Saved rest i s s' (λ s₁. save_shards-Saved rest (suc i) s₁ s') _ refl h

  module _ (m : IsMap cache) (k : Text)
      (entries : (e : ReconcileCacheEntry) → lookup k cache ≡ some e → IsEntry e) where
    -- The key belongs to a shard of a range.
    in_range : ℕ → ℕ → Bool
    in_range i rest =
        leb i (reconcile_cache_shard_for_key k n)
        && ltb (reconcile_cache_shard_for_key k n) (i + rest)

    load_shards-Saved :
        (cutoff : ℤ) (s : State) (rest i : ℕ) (out : Dict ReconcileCacheEntry)
        → ((j : ℕ)
            → i ≤ j
            → j < i + rest
            → Holds config_maps lawful namespace base_name s j (shard_content n j cache []))
        → (r : Dict ReconcileCacheEntry) × (load_shards config_maps namespace base_name s cutoff
              rest i out
            ≡ ok r)
          × (lookup k r ≡ (
              if in_range i rest
              then or_entry (fresh cutoff (lookup k cache)) (lookup k out)
              else lookup k out))
    unfolding load_shards in_range or_entry
    load_shards-Saved cutoff s zero i out h = (out, refl, ground arith)
    load_shards-Saved cutoff s (suc rest) i out h =
        let (cm, present, content) = h i (omega arith) (omega arith) in
        let (r, loaded, found) =
          load_shards-Saved cutoff s rest (suc i) (read_entries cutoff cm.content out)
            (λ j a b. h j (omega (arith, a)) (omega (arith, b))) in
        let first : lookup k (read_entries cutoff cm.content out) ≡ (
            if reconcile_cache_shard_for_key k n == i
            then or_entry (fresh cutoff (lookup k cache)) (lookup k out)
            else lookup k out) =
          ap (λ c. lookup k (read_entries cutoff c out)) content
          ∙ lookup-shard cutoff n i k cache out m entries in
        (r, rw (present, load_shards) loaded, ground (arith, found, first))

at_least_one_idem : (n : ℕ) → at_least_one (at_least_one n) ≡ at_least_one n
at_least_one_idem zero = refl
at_least_one_idem (suc n) = refl

or_nothing : (o : Option ReconcileCacheEntry) → or_entry o none ≡ o
unfolding or_entry
or_nothing none = refl
or_nothing (some e) = refl

-- Where the cache is a map and is saved whole without an error under a lawful client, it is loaded
-- without an error, and a key that has no entry, or one with a version without a bar and a time that
-- fits an int64, is read as its entry of the cache, unless that is older than the time to live.
pub load-save_reconcile_cache_sharded :
    {State : Type 0} (config_maps : Client State ConfigMap)
    (lawful : IsLawful map_namespace map_name config_maps) (namespace base_name : Text)
    (shard_count now : ℕ) (cache : Dict ReconcileCacheEntry) (s s' : State) (k : Text)
    → IsMap cache
    → ((e : ReconcileCacheEntry) → lookup k cache ≡ some e → IsEntry e)
    → save_reconcile_cache_sharded config_maps namespace base_name shard_count cache s ≡ (s', none)
    → (r : Dict ReconcileCacheEntry) × (load_reconcile_cache_sharded config_maps namespace base_name
          s' now shard_count
        ≡ ok r)
      × (lookup k r ≡ fresh (sub_ℕ now reconcile_cache_ttl) (lookup k cache))
unfolding load_reconcile_cache_sharded save_reconcile_cache_sharded
load-save_reconcile_cache_sharded config_maps lawful namespace base_name shard_count now cache s s'
      k m entries h =
    let n = at_least_one shard_count in
    let cutoff = sub_ℕ now reconcile_cache_ttl in
    let saved = save_shards-Saved config_maps lawful namespace base_name n cache n 0 s s' h in
    let (r, loaded, found) =
      load_shards-Saved config_maps lawful namespace base_name n cache m k entries cutoff s' n 0 []
        saved.0 in
    (
      r,
      loaded,
      unfold in_range lookup in
          ground (
            arith,
            found,
            reconcile_cache_shard_for_key_lt k n,
            at_least_one_idem shard_count,
            or_nothing (fresh cutoff (lookup k cache)),
          ),
    )
