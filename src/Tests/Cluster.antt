-- ===== src/Tests/Cluster.antt =====
-- ReferenceGrants and the reconcile cache, in a cluster in memory.
use ingress_operator.Prelude.{
  subst, ◌≡◌, refl, true, not, ◌&&◌, inl, List, [], ◌∷◌, ◌==◌, nat_eq, contains, some, none, arith,
  keep,
}
use mathlib.Core.Option.{some-injective}
use ingress_operator.Text.{
  Text, codes, text_eq, same, trim_space, trim_left, trim_right, is_space, tokens, split,
}
use ingress_operator.Dict.{insert, Dict, IsMap, lookup, get}
use ingress_operator.Values.{split_sources, contains_string, remove_string}
use ingress_operator.Kube.{Ingress, HttpRoute, ReferenceGrant}
use ingress_operator.Client.{Answer, ok, err, not_found, Client}
use ingress_operator.Number.{pos, sub_ℕ, format_int, emit}
use ingress_operator.Translator.{
  managed_by_annotation, managed_by_value, source_annotation, reference_grant_name, qualified,
}
use ingress_operator.Resource.{is_managed_by_us_with_ingress}
use ingress_operator.ReferenceGrant.{
  apply_reference_grant, create_reference_grant, cleanup_reference_grant_if_needed,
}
use ingress_operator.ReferenceGrant.Kept.{IsKeptAt, cleanup_reference_grant_if_needed-IsKeptAt}
use ingress_operator.ReferenceGrant.Cleanup.{
  grant_namespace, grant_name, lists, lists-cleanup_reference_grant_if_needed,
}
use ingress_operator.ReferenceGrant.Granted.{Granted, Writable, apply_reference_grant-Granted}
use ingress_operator.ReconcileCache.{
  load_reconcile_cache_sharded, save_reconcile_cache_sharded, save_shards, reconcile_cache_ttl,
  ReconcileCacheEntry, ConfigMap, parse_reconcile_cache_entry, format_reconcile_cache_entry,
  reconcile_cache_shard_for_key, shard_content, shard_name, save_shard,
}
use ingress_operator.ReconcileCache.Entry.{IsEntry, parse-format_reconcile_cache_entry}
use ingress_operator.ReconcileCache.Shards.{fresh}
use ingress_operator.ReconcileCache.RoundTrip.{load-save_reconcile_cache_sharded}
use ingress_operator.ReconcileCache.Written.{map_namespace, map_name}
use ingress_operator.Tests.Data.{config, shop, shop_canary}
use ingress_operator.Tests.Memory.{memory, memory-IsLawful, stored, removed}

abbrev grants : Client (List ReferenceGrant) ReferenceGrant
grants = memory grant_namespace grant_name

abbrev shop_grant : ReferenceGrant
shop_grant = record {
  namespace = codes "ns";
  name = reference_grant_name;
  annotations =
      (managed_by_annotation, managed_by_value)
      ∷ (source_annotation, codes "ns/shop,ns/other")
      ∷ [];
  from = [];
  to = [];
}

cleanup_reference_grant_if_needed-IsKeptAt_example :
    IsKeptAt grants
      (shop_grant ∷ [])
      (codes "ns")
      (codes "shop")
      (codes "other")
      reference_grant_name
      (cleanup_reference_grant_if_needed grants (shop_grant ∷ []) (codes "ns") (codes "shop"))
cleanup_reference_grant_if_needed-IsKeptAt_example =
    cleanup_reference_grant_if_needed-IsKeptAt grants (memory-IsLawful grant_namespace grant_name)
      (shop_grant ∷ []) (codes "ns") (codes "shop") (codes "other") reference_grant_name

shop_grant-present :
    grants.get_object (shop_grant ∷ []) (codes "ns") reference_grant_name ≡ ok shop_grant
unfolding stored same
shop_grant-present = refl

shop_grant-managed :
    is_managed_by_us_with_ingress shop_grant.annotations (codes "ns") (codes "shop") ≡ true
unfolding is_managed_by_us_with_ingress contains_string split_sources tokens split trim_space
    trim_left trim_right is_space get lookup same qualified keep
shop_grant-managed = refl

shop_grant-cleaned :
    (cleanup_reference_grant_if_needed grants (shop_grant ∷ []) (codes "ns") (codes "shop")).failure
    ≡ none
unfolding cleanup_reference_grant_if_needed stored removed is_managed_by_us_with_ingress
    contains_string split_sources remove_string tokens split trim_space trim_left trim_right
    is_space get lookup same qualified keep
shop_grant-cleaned = refl

lists-cleanup_reference_grant_if_needed_example :
    lists
      (grants.get_object
        (cleanup_reference_grant_if_needed grants
          (shop_grant ∷ [])
          (codes "ns")
          (codes "shop")).state
        (codes "ns")
        reference_grant_name)
      (codes "ns/other")
    ≡ (lists
          (grants.get_object (shop_grant ∷ []) (codes "ns") reference_grant_name)
          (codes "ns/other")
        && not (qualified (codes "ns") (codes "shop") == codes "ns/other"))
lists-cleanup_reference_grant_if_needed_example =
    lists-cleanup_reference_grant_if_needed grants (memory-IsLawful grant_namespace grant_name)
      (shop_grant ∷ []) (codes "ns") (codes "shop") shop_grant shop_grant-present shop_grant-managed
      shop_grant-cleaned (codes "ns/other")

-- A grant of somebody else.
abbrev foreign_grant : ReferenceGrant
foreign_grant = record shop_grant { annotations = [] }

abbrev shop_ingresses : List ReferenceGrant → Text → Answer (List Ingress)
shop_ingresses s namespace = ok (shop ∷ shop_canary ∷ [])

abbrev no_route : List ReferenceGrant → Text → Text → Answer HttpRoute
no_route s namespace name = err not_found

nothing-stored : grants.get_object [] (codes "ns") reference_grant_name ≡ err not_found
unfolding stored
nothing-stored = refl

granted_once :
    (apply_reference_grant grants shop_ingresses no_route none true config [] (codes "ns")).failure
    ≡ none
unfolding apply_reference_grant stored keep
granted_once = refl

apply_reference_grant-Granted_example :
    Granted grants
      (memory-IsLawful grant_namespace grant_name)
      shop_ingresses
      no_route
      none
      tt
      true
      config
      (apply_reference_grant grants shop_ingresses no_route none true config [] (codes "ns")).state
      (codes "ns")
      (create_reference_grant config (codes "ns") (shop ∷ []))
unfolding Writable keep
apply_reference_grant-Granted_example =
    apply_reference_grant-Granted grants (memory-IsLawful grant_namespace grant_name) shop_ingresses
      no_route none tt true config [] (codes "ns") (shop ∷ shop_canary ∷ []) refl
      (inl nothing-stored) granted_once

abbrev cache_entry : ReconcileCacheEntry
cache_entry = record { resource_version = codes "417"; updated_at_unix = pos 1700000000 }

cache_entry-IsEntry : IsEntry cache_entry
unfolding contains
cache_entry-IsEntry = record { no_bar = refl; time_fits = omega arith }

parse-format_reconcile_cache_entry_example :
    parse_reconcile_cache_entry (format_reconcile_cache_entry cache_entry) ≡ some cache_entry
parse-format_reconcile_cache_entry_example =
    parse-format_reconcile_cache_entry cache_entry cache_entry-IsEntry

abbrev cache : Dict ReconcileCacheEntry
cache = (codes "ns__shop", cache_entry) ∷ []

cache-IsMap : IsMap cache
unfolding lookup
cache-IsMap = (refl, tt)

cached : (e : ReconcileCacheEntry) → lookup (codes "ns__shop") cache ≡ some e → IsEntry e
unfolding lookup same
cached e h = subst IsEntry (some-injective cache_entry e h) cache_entry-IsEntry

abbrev config_maps : Client (List ConfigMap) ConfigMap
config_maps = memory map_namespace map_name

abbrev saved_map : ConfigMap
saved_map = record {
  namespace = codes "gw";
  name = shard_name (codes "cache") 2;
  content = (codes "ns__shop", codes "417|1700000000") ∷ [];
}

saved_once :
    save_shard config_maps (codes "gw") (codes "cache") [] 2 saved_map.content
    ≡ (saved_map ∷ [], none)
unfolding save_shard stored
saved_once = refl

-- The whole cache in one shard.
abbrev whole_map : ConfigMap
whole_map = record {
  namespace = codes "gw";
  name = codes "cache-0";
  content = (codes "ns__shop", codes "417|1700000000") ∷ [];
}

saved_whole :
    save_reconcile_cache_sharded config_maps (codes "gw") (codes "cache") 1 cache []
    ≡ (whole_map ∷ [], none)
unfolding save_reconcile_cache_sharded save_shards save_shard stored shard_content insert
    format_reconcile_cache_entry format_int emit reconcile_cache_shard_for_key shard_name
saved_whole = refl

load-save_reconcile_cache_sharded_example :
    (r : Dict ReconcileCacheEntry) × (load_reconcile_cache_sharded config_maps
        (codes "gw")
        (codes "cache")
        (whole_map ∷ [])
        1700000060
        1
      ≡ ok r)
    × (lookup (codes "ns__shop") r
        ≡ fresh (sub_ℕ 1700000060 reconcile_cache_ttl) (lookup (codes "ns__shop") cache))
load-save_reconcile_cache_sharded_example =
    load-save_reconcile_cache_sharded config_maps (memory-IsLawful map_namespace map_name)
      (codes "gw") (codes "cache") 1 1700000060 cache [] (whole_map ∷ []) (codes "ns__shop")
      cache-IsMap cached saved_whole
