-- ===== src/Controller/Memory/Bounds.antt =====
-- The reconcile cache stays within its bound.
use ingress_operator.Prelude.{
  ℕ, ◌≤◌, ◌<◌, ◌/◌, ◌≡◌, refl, sym, ◌∙◌, Bool, false, ◌||◌, ◌&&◌, Option, none, some, List, [], ◌∷◌,
  ◌==◌, leb, ltb, length, arith, contains, Bool-cases, inl, inr,
}
use ingress_operator.Text.{Text, text_eq, same_iff}
use ingress_operator.Dict.{
  Dict, keys, lookup, insert, delete, MapOrder, IsMap, insert-IsMap, lookup-delete, delete-IsMap,
  contains-keys,
}
use ingress_operator.Number.{ℤ, pos}
use ingress_operator.Kube.{Ingress}
use ingress_operator.ReconcileCache.{ReconcileCacheEntry, reconcile_cache_key}
use ingress_operator.Controller.{Reconciler}
use ingress_operator.Controller.Memory.{
  entries_of, insert_by_age, sort_by_age, evict, evict_oldest_cache_entries, record_entry,
  maybe_record_reconcile, Memory, recorded_cache, skip_entry, skip_cache, should_skip_reconcile,
  is_outdated, evicted_cache, evict_reconcile_cache, mark_self_deleted, was_self_deleted, second,
}

-- The entries have a key.
unfoldable pub has_key : List (Text × ℤ) → Text → Bool
has_key [] k = false
has_key ((key, ts) ∷ entries) k = key == k || has_key entries k

has_key-entries_of :
    (cache : Dict ReconcileCacheEntry) (k : Text)
    → has_key (entries_of cache) k ≡ contains (keys cache) k
unfolding has_key entries_of contains keys
has_key-entries_of [] k = refl
has_key-entries_of ((key, entry) ∷ cache) k = rw (has_key-entries_of cache k) refl

has_key-insert_by_age :
    (key : Text) (ts : ℤ) (entries : List (Text × ℤ)) (k : Text)
    → has_key (insert_by_age (key, ts) entries) k ≡ (key == k || has_key entries k)
unfolding has_key insert_by_age
has_key-insert_by_age key ts [] k = refl
has_key-insert_by_age key ts ((j, t) ∷ entries) k =
    ground (arith, has_key-insert_by_age key ts entries k)

has_key-sort_by_age :
    (entries : List (Text × ℤ)) (k : Text) → has_key (sort_by_age entries) k ≡ has_key entries k
unfolding has_key sort_by_age
has_key-sort_by_age [] k = refl
has_key-sort_by_age ((key, ts) ∷ entries) k =
    has_key-insert_by_age key ts (sort_by_age entries) k ∙ rw (has_key-sort_by_age entries k) refl

-- A map without a key is empty.
no_keys :
    (cache : Dict ReconcileCacheEntry) → ((k : Text) → lookup k cache ≡ none) → length cache ≡ 0
unfolding lookup
no_keys [] h = refl
no_keys ((key, entry) ∷ cache) h = ground (arith, h key, same_iff key key)

evict_bound :
    (max_entries : ℕ) (entries : List (Text × ℤ)) (cache : Dict ReconcileCacheEntry)
    → ((k : Text) → has_key entries k ≡ false → lookup k cache ≡ none)
    → length (evict max_entries entries cache) ≤ max_entries
unfolding has_key evict
evict_bound max_entries [] cache h = omega (arith, no_keys cache (λ k. h k refl))
evict_bound max_entries ((key, ts) ∷ entries) cache h =
    elim (Bool-cases (leb (length cache) max_entries)) [
      | inl b ↦ rw b (ground (arith, b))
      | inr b ↦ rw b (
          evict_bound max_entries entries (delete key cache)
            (λ k g. ground (arith, lookup-delete k key cache, h k, g)))
    ]

evict_oldest_cache_entries_bound :
    (order : MapOrder) (max_entries : ℕ) (cache : Dict ReconcileCacheEntry)
    → IsMap cache
    → length (evict_oldest_cache_entries order max_entries cache) ≤ max_entries
unfolding evict_oldest_cache_entries
evict_oldest_cache_entries_bound order max_entries cache h =
    let arranged = order.arrange ReconcileCacheEntry cache in
    evict_bound max_entries (sort_by_age (entries_of arranged)) cache (λ k g.
      let missing : contains (keys arranged) k ≡ false =
        sym (has_key-sort_by_age (entries_of arranged) k ∙ has_key-entries_of arranged k) ∙ g in
      sym (order.lookup-arrange ReconcileCacheEntry cache k h) ∙ not_found_key arranged k missing)
  where
    not_found_key :
        (d : Dict ReconcileCacheEntry) (k : Text) → contains (keys d) k ≡ false → lookup k d ≡ none
    not_found_key d k g = ground (arith, contains-keys k d, g)

-- The remembered cache is a map, and within the bound.
abbrev pub IsBounded : ℕ → Option (Dict ReconcileCacheEntry) → Type 0
IsBounded bound none = Unit
IsBounded bound (some cache) = IsMap cache × (length cache ≤ bound)

evict-IsMap :
    (max_entries : ℕ) (entries : List (Text × ℤ)) (cache : Dict ReconcileCacheEntry)
    → IsMap cache
    → IsMap (evict max_entries entries cache)
unfolding evict
evict-IsMap max_entries [] cache h = h
evict-IsMap max_entries ((key, ts) ∷ entries) cache h =
    elim (Bool-cases (leb (length cache) max_entries)) [
      | inl b ↦ rw b h
      | inr b ↦ rw b (evict-IsMap max_entries entries (delete key cache) (delete-IsMap key cache h))
    ]

record_entry-IsBounded :
    (order : MapOrder) (max_entries now : ℕ) (ingress : Ingress) (cache : Dict ReconcileCacheEntry)
    → 0 < max_entries
    → IsMap cache
    → IsBounded max_entries (some (record_entry order max_entries now ingress cache))
unfolding record_entry
record_entry-IsBounded order max_entries now ingress cache p h =
    let entry : ReconcileCacheEntry = record {
      resource_version = ingress.resource_version;
      updated_at_unix = pos (now / second);
    } in
    let cache' = insert (reconcile_cache_key ingress.uid) entry cache in
    let h' : IsMap cache' = insert-IsMap (reconcile_cache_key ingress.uid) entry cache h in
    elim (Bool-cases (ltb 0 max_entries && ltb max_entries (length cache'))) [
      | inl b ↦ rw b (
        (unfold evict_oldest_cache_entries in evict-IsMap max_entries _ cache' h'),
        evict_oldest_cache_entries_bound order max_entries cache' h',
      )
      | inr b ↦ rw b (h', ground (arith, p, b))
    ]

length-delete :
    (key : Text) (cache : Dict ReconcileCacheEntry) → length (delete key cache) ≤ length cache
unfolding delete
length-delete key [] = omega arith
length-delete key ((k, e) ∷ cache) = ground (arith, length-delete key cache)

delete-IsBounded :
    (bound : ℕ) (key : Text) (cache : Dict ReconcileCacheEntry)
    → IsBounded bound (some cache)
    → IsBounded bound (some (delete key cache))
delete-IsBounded bound key cache h =
    (delete-IsMap key cache h.0, omega (arith, h.1, length-delete key cache))

-- The operations on what a reconciler remembers.
pub data Step (order : MapOrder) (r : Reconciler) : Memory → Memory → Type 0 where
  recorded :
      (now : ℕ) (ingress : Ingress) (m : Memory)
      → Step order r m (maybe_record_reconcile order r now ingress m)
  asked :
      (now : ℕ) (ingress : Ingress) (m : Memory)
      → Step order r m (should_skip_reconcile now ingress m).1
  evicted : (ingress : Ingress) (m : Memory) → Step order r m (evict_reconcile_cache ingress m)
  marked :
      (now : ℕ) (ingress : Ingress) (m : Memory) → Step order r m (mark_self_deleted now ingress m)
  looked_up :
      (now : ℕ) (ingress : Ingress) (m : Memory) → Step order r m (was_self_deleted now ingress m).1

-- What the operations lead to, one after the other.
pub data Reach (order : MapOrder) (r : Reconciler) : Memory → Memory → Type 0 where
  here : (m : Memory) → Reach order r m m
  then_step : (m m' m'' : Memory) → Reach order r m m' → Step order r m' m'' → Reach order r m m''

recorded_cache-IsBounded :
    (order : MapOrder) (bound now : ℕ) (ingress : Ingress) (c : Option (Dict ReconcileCacheEntry))
    → 0 < bound
    → IsBounded bound c
    → IsBounded bound (recorded_cache order bound now ingress c)
unfolding recorded_cache
recorded_cache-IsBounded order bound now ingress none p h = tt
recorded_cache-IsBounded order bound now ingress (some cache) p h =
    elim (Bool-cases (ingress.resource_version == [])) [
      | inl b ↦ rw b h
      | inr b ↦ rw b (record_entry-IsBounded order bound now ingress cache p h.0)
    ]

skip_entry-IsBounded :
    (bound now : ℕ) (ingress : Ingress) (cache : Dict ReconcileCacheEntry)
    (e : Option ReconcileCacheEntry)
    → IsBounded bound (some cache)
    → IsBounded bound (some (skip_entry now ingress cache e).1)
unfolding skip_entry
skip_entry-IsBounded bound now ingress cache none h = h
skip_entry-IsBounded bound now ingress cache (some last) h =
    elim (Bool-cases (last.resource_version == ingress.resource_version)) [
      | inr b ↦ rw b h
      | inl b ↦ elim (Bool-cases (is_outdated now last.updated_at_unix)) [
        | inl c ↦ rw (b, c) (delete-IsBounded bound (reconcile_cache_key ingress.uid) cache h)
        | inr c ↦ rw (b, c) h
      ]
    ]

skip_cache-IsBounded :
    (bound now : ℕ) (ingress : Ingress) (c : Option (Dict ReconcileCacheEntry))
    → IsBounded bound c
    → IsBounded bound (skip_cache now ingress c).1
unfolding skip_cache
skip_cache-IsBounded bound now ingress none h = tt
skip_cache-IsBounded bound now ingress (some cache) h =
    elim (Bool-cases (ingress.resource_version == [])) [
      | inl b ↦ rw b h
      | inr b ↦ rw b (skip_entry-IsBounded bound now ingress cache _ h)
    ]

evicted_cache-IsBounded :
    (bound : ℕ) (ingress : Ingress) (c : Option (Dict ReconcileCacheEntry))
    → IsBounded bound c
    → IsBounded bound (evicted_cache ingress c)
unfolding evicted_cache
evicted_cache-IsBounded bound ingress none h = tt
evicted_cache-IsBounded bound ingress (some cache) h = elim (Bool-cases (ingress.uid == [])) [
  | inl b ↦ rw b h
  | inr b ↦ rw b (delete-IsBounded bound (reconcile_cache_key ingress.uid) cache h)
]

mark-keeps :
    (now : ℕ) (ingress : Ingress) (m : Memory)
    → (mark_self_deleted now ingress m).reconcile_cache ≡ m.reconcile_cache
unfolding mark_self_deleted
mark-keeps now ingress m = ground arith

was-keeps :
    (now : ℕ) (ingress : Ingress) (m : Memory)
    → (was_self_deleted now ingress m).1.reconcile_cache ≡ m.reconcile_cache
unfolding was_self_deleted
was-keeps now ingress m = ground arith

Step-IsBounded :
    (order : MapOrder) (r : Reconciler) {m m' : Memory}
    → 0 < r.reconcile_cache_max_entries
    → Step order r m m'
    → IsBounded r.reconcile_cache_max_entries m.reconcile_cache
    → IsBounded r.reconcile_cache_max_entries m'.reconcile_cache
Step-IsBounded order r p (recorded now ingress m) h =
    unfold maybe_record_reconcile in
    recorded_cache-IsBounded order _ now ingress m.reconcile_cache p h
Step-IsBounded order r p (asked now ingress m) h =
    unfold should_skip_reconcile in skip_cache-IsBounded _ now ingress m.reconcile_cache h
Step-IsBounded order r p (evicted ingress m) h =
    unfold evict_reconcile_cache in evicted_cache-IsBounded _ ingress m.reconcile_cache h
Step-IsBounded order r p (marked now ingress m) h = rw (mark-keeps now ingress m) h
Step-IsBounded order r p (looked_up now ingress m) h = rw (was-keeps now ingress m) h

-- With a bound that is not 0, a reconcile cache within the bound stays within it, whatever the
-- reconciler records, asks, evicts and marks, in whatever order the cache is ranged over.
pub Reach-IsBounded :
    (order : MapOrder) (r : Reconciler) {m m' : Memory}
    → 0 < r.reconcile_cache_max_entries
    → Reach order r m m'
    → IsBounded r.reconcile_cache_max_entries m.reconcile_cache
    → IsBounded r.reconcile_cache_max_entries m'.reconcile_cache
Reach-IsBounded order r p (here m) h = h
Reach-IsBounded order r p (then_step m k m' reach step) h =
    Step-IsBounded order r p step (Reach-IsBounded order r p reach h)

-- Recording an ingress with a version brings a cache of any size, such as the one that is loaded at
-- the start, within a bound that is not 0.
pub maybe_record_reconcile_bound :
    (order : MapOrder) (r : Reconciler) (now : ℕ) (ingress : Ingress) (m : Memory)
    (cache : Dict ReconcileCacheEntry)
    → 0 < r.reconcile_cache_max_entries
    → m.reconcile_cache ≡ some cache
    → IsMap cache
    → (ingress.resource_version == []) ≡ false
    → IsBounded r.reconcile_cache_max_entries
        (maybe_record_reconcile order r now ingress m).reconcile_cache
unfolding maybe_record_reconcile recorded_cache
maybe_record_reconcile_bound order r now ingress m cache p e h b =
    rw (e, b) (record_entry-IsBounded order r.reconcile_cache_max_entries now ingress cache p h)
