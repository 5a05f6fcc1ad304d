-- ===== src/ReconcileCache.antt =====
-- internal/utils/reconcile_cache.go: the cache of reconciled versions, kept in sharded ConfigMaps.
-- The clock is an argument, in Unix seconds; a negative shard count acts like 0.
pub mod Entry
pub mod Shards
pub mod Written
pub mod RoundTrip
use Prim.Native.Nat.{bit_xor}
use ingress_operator.Prelude.{
  ℕ, zero, suc, ◌+◌, ◌-◌, ◌*◌, ◌%◌, ◌^◌, Bool, true, false, Option, none, some, List, [], ◌∷◌, ◌++◌,
  ◌==◌, nat_eq, leb, if◌then◌else◌,
}
use ingress_operator.Text.{Text, codes, text_eq, utf8, split, replace_all, trim_space}
use ingress_operator.Dict.{Dict, insert}
use ingress_operator.Number.{ℤ, sub_ℕ, ltb_ℤ, pos, parse_int, format_int}
use ingress_operator.Client.{
  ApiError, not_found, other, Failure, plain, wrapped, Answer, ok, err, Client,
}

pub record ReconcileCacheEntry : Type 0 where
  pub resource_version : Text
  pub updated_at_unix : ℤ

pub record ConfigMap : Type 0 where
  pub namespace : Text
  pub name : Text
  pub content : Dict Text

-- 24 hours, in seconds.
abbrev pub reconcile_cache_ttl : ℕ
reconcile_cache_ttl = 24 * 60 * 60

-- One round of the FNV-1a hash, in uint32.
abbrev hash_byte : ℕ → ℕ → ℕ
hash_byte hash byte = bit_xor hash byte * 16777619 % 2 ^ 32

hash_bytes : ℕ → List ℕ → ℕ
hash_bytes hash [] = hash
hash_bytes hash (b ∷ bytes) = hash_bytes (hash_byte hash b) bytes

unfoldable pub fnv32a : Text → ℕ
unfolding hash_bytes utf8
fnv32a s = hash_bytes 2166136261 (utf8 s)

-- reconcileCacheShardForKey
unfoldable pub reconcile_cache_shard_for_key : Text → ℕ → ℕ
unfolding fnv32a
reconcile_cache_shard_for_key key shard_count =
    if leb shard_count 1 then 0 else fnv32a key % shard_count

-- ReconcileCacheKey
unfoldable pub reconcile_cache_key : Text → Text
reconcile_cache_key id = replace_all (trim_space id) (codes "/") (codes "__")

-- The cutoff of an int64.
abbrev pub int64_cutoff : ℕ
int64_cutoff = 2 ^ 63

entry_of : Text → Option ℤ → Option ReconcileCacheEntry
entry_of version none = none
entry_of version (some ts) = some (record { resource_version = version; updated_at_unix = ts })

parse_parts : List Text → Option ReconcileCacheEntry
parse_parts (version ∷ ts ∷ []) = entry_of version (parse_int int64_cutoff ts)
parse_parts _ = none

-- parseReconcileCacheEntry
unfoldable pub parse_reconcile_cache_entry : Text → Option ReconcileCacheEntry
unfolding parse_parts entry_of
parse_reconcile_cache_entry raw = parse_parts (split raw b'|')

-- formatReconcileCacheEntry
unfoldable pub format_reconcile_cache_entry : ReconcileCacheEntry → Text
format_reconcile_cache_entry entry =
    entry.resource_version ++ (b'|' ∷ format_int entry.updated_at_unix)

unfoldable pub shard_name : Text → ℕ → Text
shard_name base_name shard = base_name ++ (b'-' ∷ format_int (pos shard))

abbrev pub at_least_one : ℕ → ℕ
at_least_one zero = 1
at_least_one (suc n) = suc n

-- An entry that could be read is taken if it is not stale.
unfoldable pub read_entry :
    ℤ → Text → Option ReconcileCacheEntry → Dict ReconcileCacheEntry → Dict ReconcileCacheEntry
read_entry cutoff key none out = out
read_entry cutoff key (some entry) out =
    if ltb_ℤ entry.updated_at_unix cutoff then out else insert key entry out

-- The entries of one ConfigMap.
unfoldable pub read_entries : ℤ → Dict Text → Dict ReconcileCacheEntry → Dict ReconcileCacheEntry
unfolding read_entry
read_entries cutoff [] out = out
read_entries cutoff ((key, value) ∷ content) out =
    read_entries cutoff content (read_entry cutoff key (parse_reconcile_cache_entry value) out)

-- The part of the cache that belongs to a shard, formatted.
unfoldable pub shard_content : ℕ → ℕ → Dict ReconcileCacheEntry → Dict Text → Dict Text
shard_content shard_count shard [] out = out
shard_content shard_count shard ((key, entry) ∷ cache) out = shard_content shard_count shard cache (
    if reconcile_cache_shard_for_key key shard_count == shard
    then insert key (format_reconcile_cache_entry entry) out
    else out)

module _ {State : Type 0} (config_maps : Client State ConfigMap) (namespace base_name : Text) where
  -- The loop over the shards, from `shard` on.
  unfoldable pub load_shards :
      State → ℤ → ℕ → ℕ → Dict ReconcileCacheEntry → Answer (Dict ReconcileCacheEntry)
  load_shards s cutoff zero shard out = ok out
  load_shards s cutoff (suc rest) shard out =
      elim (config_maps.get_object s namespace (shard_name base_name shard)) [
        | err not_found ↦ load_shards s cutoff rest (suc shard) out
        | err (other m) ↦ err (other m)
        | ok cm ↦ load_shards s cutoff rest (suc shard) (read_entries cutoff cm.content out)
      ]

  -- LoadReconcileCacheSharded
  unfoldable pub load_reconcile_cache_sharded : State → ℕ → ℕ → Answer (Dict ReconcileCacheEntry)
  unfolding load_shards
  load_reconcile_cache_sharded s now shard_count =
      load_shards s (sub_ℕ now reconcile_cache_ttl) (at_least_one shard_count) 0 []

  -- The end of a write: the error is wrapped.
  saved : State → Text → Answer State → State × Option Failure
  saved s message (ok s') = (s', none)
  saved s message (err e) = (s, some (wrapped message e))

  -- A shard is created, or written over.
  saved_over : State → ℕ → Dict Text → Answer ConfigMap → State × Option Failure
  unfolding saved
  saved_over s shard content (err not_found) =
      saved s (codes "failed to create reconcile cache configmap") (
        config_maps.create_object s
          (record { namespace = namespace; name = shard_name base_name shard; content = content }))
  saved_over s shard content (err (other m)) = (s, some (plain (other m)))
  saved_over s shard content (ok cm) =
      saved s (codes "failed to update reconcile cache configmap")
        (config_maps.update_object s (record cm { content = content }))

  unfoldable pub save_shard : State → ℕ → Dict Text → State × Option Failure
  unfolding saved_over
  save_shard s shard content =
      saved_over s shard content (config_maps.get_object s namespace (shard_name base_name shard))

  save_next : (State → State × Option Failure) → State × Option Failure → State × Option Failure
  save_next next (s', some f) = (s', some f)
  save_next next (s', none) = next s'

  unfoldable pub save_shards : ℕ → Dict ReconcileCacheEntry → ℕ → ℕ → State → State × Option Failure
  unfolding save_shard save_next
  save_shards shard_count cache zero shard s = (s, none)
  save_shards shard_count cache (suc rest) shard s =
      save_next (save_shards shard_count cache rest (suc shard))
        (save_shard s shard (shard_content shard_count shard cache []))

  -- SaveReconcileCacheSharded: the new state, and the error if there is one.
  unfoldable pub save_reconcile_cache_sharded :
      ℕ → Dict ReconcileCacheEntry → State → State × Option Failure
  unfolding save_shards
  save_reconcile_cache_sharded shard_count cache s =
      save_shards (at_least_one shard_count) cache (at_least_one shard_count) 0 s
