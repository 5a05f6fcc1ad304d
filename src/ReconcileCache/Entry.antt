-- ===== src/ReconcileCache/Entry.antt =====
-- Entries of the cache are read back as they were written.
use ingress_operator.Prelude.{
  ℕ, zero, suc, ◌+◌, ◌/◌, ◌%◌, ◌<◌, ◌≡◌, refl, false, some, [], ◌∷◌, nat_eq, arith, contains,
}
use ingress_operator.Text.{Text}
use ingress_operator.Text.Split.{split-append, split_of_Lacks}
use ingress_operator.Number.{ℤ, pos, negsuc, format_int, emit}
use ingress_operator.Number.RoundTrip.{InRange, parse_int-format_int}
use ingress_operator.ReconcileCache.{
  ReconcileCacheEntry, parse_reconcile_cache_entry, format_reconcile_cache_entry, int64_cutoff,
  reconcile_cache_shard_for_key, at_least_one,
}

-- A resource version without a bar, and a time that fits an int64.
pub record IsEntry (entry : ReconcileCacheEntry) : Type 0 where
  pub no_bar : contains entry.resource_version b'|' ≡ false
  pub time_fits : InRange int64_cutoff entry.updated_at_unix

emit-Lacks :
    (d : ℕ) (fuel n : ℕ) (out : Text)
    → b'9' < d
    → contains out d ≡ false
    → contains (emit fuel n out) d ≡ false
unfolding emit contains
emit-Lacks d zero n out h k = k
emit-Lacks d (suc fuel) n out h k =
    ground (arith, emit-Lacks d fuel (n / 10) ((b'0' + n % 10) ∷ out) h, k)

format_int-Lacks : (z : ℤ) → contains (format_int z) b'|' ≡ false
unfolding format_int contains
format_int-Lacks (pos n) = emit-Lacks b'|' (suc n) n [] (omega arith) refl
format_int-Lacks (negsuc n) = ground (arith, emit-Lacks b'|' (suc (suc n)) (suc n) [] (omega arith))

-- An entry is read back from its print.
pub parse-format_reconcile_cache_entry :
    (entry : ReconcileCacheEntry)
    → IsEntry entry
    → parse_reconcile_cache_entry (format_reconcile_cache_entry entry) ≡ some entry
unfolding parse_reconcile_cache_entry format_reconcile_cache_entry
parse-format_reconcile_cache_entry entry h = rw (
  split-append entry.resource_version (format_int entry.updated_at_unix) b'|' h.no_bar,
  split_of_Lacks (format_int entry.updated_at_unix) b'|' (format_int-Lacks entry.updated_at_unix),
  parse_int-format_int int64_cutoff entry.updated_at_unix h.time_fits,
)

-- Every key belongs to one of the shards that are saved and loaded.
pub reconcile_cache_shard_for_key_lt :
    (key : Text) (shard_count : ℕ)
    → reconcile_cache_shard_for_key key shard_count < at_least_one shard_count
unfolding reconcile_cache_shard_for_key
reconcile_cache_shard_for_key_lt key zero = ground arith
reconcile_cache_shard_for_key_lt key (suc n) = ground arith
