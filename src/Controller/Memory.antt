-- ===== src/Controller/Memory.antt =====
-- What the reconciler of ingresses remembers: the versions that it reconciled, with the eviction of
-- the oldest ones, and the ingresses that it deleted. Time is in nanoseconds since 1970.
pub mod Bounds
pub mod Recorded
use ingress_operator.Prelude.{
  ℕ, ◌+◌, ◌*◌, ◌/◌, Bool, true, false, not, ◌&&◌, Option, none, some, List, [], ◌∷◌, ◌==◌, leb, ltb,
  if◌then◌else◌, length,
}
use ingress_operator.Text.{Text, text_eq}
use ingress_operator.Dict.{Dict, lookup, insert, delete, MapOrder}
use ingress_operator.Number.{ℤ, pos, pos_part, neg_part, ltb_ℤ}
use ingress_operator.Kube.{Ingress}
use ingress_operator.ReconcileCache.{ReconcileCacheEntry, reconcile_cache_key, reconcile_cache_ttl}
use ingress_operator.Controller.{Reconciler}

abbrev pub second : ℕ
second = 1000000000

-- selfDeletedIngressTTL
abbrev pub self_deleted_ingress_ttl : ℕ
self_deleted_ingress_ttl = 10 * 60 * second

-- IngressReconciler, the fields that change. A missing cache is `none`; the source makes a missing
-- map of deleted ingresses before it writes to it.
pub record Memory : Type 0 where
  pub reconcile_cache : Option (Dict ReconcileCacheEntry)
  pub self_deleted_ingresses : Dict ℕ

-- markSelfDeleted
unfoldable pub mark_self_deleted : ℕ → Ingress → Memory → Memory
mark_self_deleted now ingress m =
    if ingress.uid == []
    then m
    else record m { self_deleted_ingresses = insert ingress.uid now m.self_deleted_ingresses }

-- The loop that drops what was marked before the cutoff.
unfoldable pub drop_expired : ℕ → Dict ℕ → Dict ℕ
drop_expired now [] = []
drop_expired now ((uid, ts) ∷ d) =
    let rest = drop_expired now d in
    if ltb (ts + self_deleted_ingress_ttl) now then rest else (uid, ts) ∷ rest

is_recent : ℕ → Option ℕ → Bool
is_recent now none = false
is_recent now (some ts) = ltb now (ts + self_deleted_ingress_ttl)

-- wasSelfDeleted
unfoldable pub was_self_deleted : ℕ → Ingress → Memory → Bool × Memory
unfolding drop_expired is_recent
was_self_deleted now ingress m =
    let kept = drop_expired now m.self_deleted_ingresses in
    if ingress.uid == []
    then (false, m)
    else (is_recent now (lookup ingress.uid kept), record m { self_deleted_ingresses = kept })

-- time.Since(time.Unix(t, 0)) > ReconcileCacheTTL
unfoldable pub is_outdated : ℕ → ℤ → Bool
is_outdated now t =
    ltb (pos_part t * second + reconcile_cache_ttl * second) (now + neg_part t * second)

skip_entry :
    ℕ
    → Ingress
    → Dict ReconcileCacheEntry
    → Option ReconcileCacheEntry
    → Bool × Dict ReconcileCacheEntry
unfolding is_outdated
skip_entry now ingress cache none = (false, cache)
skip_entry now ingress cache (some last) =
    if not (last.resource_version == ingress.resource_version)
    then (false, cache)
    else if is_outdated now last.updated_at_unix
    then (false, delete (reconcile_cache_key ingress.uid) cache)
    else (true, cache)

unfoldable pub skip_cache :
    ℕ → Ingress → Option (Dict ReconcileCacheEntry) → Bool × Option (Dict ReconcileCacheEntry)
unfolding skip_entry
skip_cache now ingress none = (false, none)
skip_cache now ingress (some cache) =
    let (skip, cache') =
      skip_entry now ingress cache (lookup (reconcile_cache_key ingress.uid) cache) in
    if ingress.resource_version == [] then (false, some cache) else (skip, some cache')

-- shouldSkipReconcile
unfoldable pub should_skip_reconcile : ℕ → Ingress → Memory → Bool × Memory
unfolding skip_cache
should_skip_reconcile now ingress m =
    let (skip, cache) = skip_cache now ingress m.reconcile_cache in
    (skip, record m { reconcile_cache = cache })

-- The keys of the cache with their times.
unfoldable pub entries_of : Dict ReconcileCacheEntry → List (Text × ℤ)
entries_of [] = []
entries_of ((key, entry) ∷ cache) = (key, entry.updated_at_unix) ∷ entries_of cache

insert_by_age : Text × ℤ → List (Text × ℤ) → List (Text × ℤ)
insert_by_age (key, ts) [] = (key, ts) ∷ []
insert_by_age (key, ts) ((k, t) ∷ entries) =
    let rest = insert_by_age (key, ts) entries in
    if ltb_ℤ t ts then (k, t) ∷ rest else (key, ts) ∷ (k, t) ∷ entries

-- sort.Slice by the times. Which of two entries of one time comes first is left to the order in
-- which the map is ranged over.
unfoldable pub sort_by_age : List (Text × ℤ) → List (Text × ℤ)
unfolding insert_by_age
sort_by_age [] = []
sort_by_age (e ∷ entries) = insert_by_age e (sort_by_age entries)

-- The loop of evictOldestCacheEntries.
unfoldable pub evict : ℕ → List (Text × ℤ) → Dict ReconcileCacheEntry → Dict ReconcileCacheEntry
evict max_entries [] cache = cache
evict max_entries ((key, ts) ∷ entries) cache =
    let rest = evict max_entries entries (delete key cache) in
    if leb (length cache) max_entries then cache else rest

-- evictOldestCacheEntries
unfoldable pub evict_oldest_cache_entries :
    MapOrder → ℕ → Dict ReconcileCacheEntry → Dict ReconcileCacheEntry
unfolding entries_of sort_by_age evict
evict_oldest_cache_entries order max_entries cache =
    evict max_entries (sort_by_age (entries_of (order.arrange ReconcileCacheEntry cache))) cache

-- The cache with an entry for the ingress, after the eviction.
unfoldable pub record_entry :
    MapOrder → ℕ → ℕ → Ingress → Dict ReconcileCacheEntry → Dict ReconcileCacheEntry
unfolding evict_oldest_cache_entries
record_entry order max_entries now ingress cache =
    let entry : ReconcileCacheEntry = record {
      resource_version = ingress.resource_version;
      updated_at_unix = pos (now / second);
    } in
    let cache' = insert (reconcile_cache_key ingress.uid) entry cache in
    if ltb 0 max_entries && ltb max_entries (length cache')
    then evict_oldest_cache_entries order max_entries cache'
    else cache'

unfoldable pub recorded_cache :
    MapOrder
    → ℕ
    → ℕ
    → Ingress
    → Option (Dict ReconcileCacheEntry)
    → Option (Dict ReconcileCacheEntry)
unfolding record_entry
recorded_cache order max_entries now ingress none = none
recorded_cache order max_entries now ingress (some cache) = some (
    if ingress.resource_version == []
    then cache
    else record_entry order max_entries now ingress cache)

-- maybeRecordReconcile, after a reconciliation without an error or a requeue: what it remembers. The
-- copy of the cache that it saves is saved as in ReconcileCache.
unfoldable pub maybe_record_reconcile : MapOrder → Reconciler → ℕ → Ingress → Memory → Memory
unfolding recorded_cache
maybe_record_reconcile order r now ingress m = record m {
  reconcile_cache =
      recorded_cache order r.reconcile_cache_max_entries now ingress m.reconcile_cache;
}

unfoldable pub evicted_cache :
    Ingress → Option (Dict ReconcileCacheEntry) → Option (Dict ReconcileCacheEntry)
evicted_cache ingress none = none
evicted_cache ingress (some cache) =
    some (if ingress.uid == [] then cache else delete (reconcile_cache_key ingress.uid) cache)

-- evictReconcileCache: what it remembers.
unfoldable pub evict_reconcile_cache : Ingress → Memory → Memory
unfolding evicted_cache
evict_reconcile_cache ingress m = record m {
  reconcile_cache = evicted_cache ingress m.reconcile_cache;
}
