-- ===== src/Tests/Reconcilers.antt =====
-- The reconciler of ingresses and the re-enabler at concrete ingresses.
use ingress_operator.Prelude.{
  ◌/◌, ◌≡◌, refl, true, false, not, ◌&&◌, ◌||◌, [], ◌∷◌, ◌==◌, some, none, Option, List, keep,
  contains, some_of, arith,
}
use ingress_operator.Text.{Text, codes, text_eq, same}
use ingress_operator.Dict.{Dict, insert, lookup, get, insertion_order}
use ingress_operator.Number.{pos}
use ingress_operator.Kube.{Ingress}
use ingress_operator.Client.{ok, Failure}
use ingress_operator.ReconcileCache.{ReconcileCacheEntry}
use ingress_operator.Translator.Canary.{is_canary}
use ingress_operator.Controller.{
  Reconciler, keep_ingress, external_dns_hostname_annotation, external_dns_ingress_hostname_source,
  match_ingress_class_patterns, matches_ingress_class_filter, matches_ingress_class_ignore_filter,
  class_of, should_enqueue_ingress_by_class, ignore_ingress_annotation, true_text,
}
use ingress_operator.Controller.Memory.{
  Memory, maybe_record_reconcile, should_skip_reconcile, is_outdated, mark_self_deleted,
  was_self_deleted, second,
}
use ingress_operator.Controller.Memory.Bounds.{
  IsBounded, here, then_step, recorded, Reach-IsBounded, maybe_record_reconcile_bound,
}
use ingress_operator.Controller.Memory.Recorded.{
  should_skip_reconcile-maybe_record_reconcile, was_self_deleted-mark_self_deleted,
}
use ingress_operator.Controller.Skip.{should_skip_ingress, should_include_ingress_for_synthesis}
use ingress_operator.Controller.Skip.Included.{
  should_skip_ingress-should_include_ingress_for_synthesis,
}
use ingress_operator.Controller.Siblings.{
  is_in_scope, is_conflict_candidate, is_primary_of, detect_snippet_conflicts, shares_host_path,
  host_paths,
}
use ingress_operator.Controller.Siblings.Age.{is_conflict_candidate_total}
use ingress_operator.Controller.Canaries.{
  finished, reconcile_canary_primaries, reconcile_primaries_among,
}
use ingress_operator.Controller.Canaries.Folded.{
  folds_in, reconcile_each, reconcile_canary_primaries-folds_in,
}
use ingress_operator.Controller.Siblings.Suppressed.{owns, contains-detect_snippet_conflicts}
use ingress_operator.Controller.Disable.{disabled_ingress}
use ingress_operator.Reenabler.{restored_ingress}
use ingress_operator.Reenabler.Restored.{ReadsLike, restored_ingress-disabled_ingress}
use ingress_operator.Webhook.{allow_ingress_annotation, handle}
use ingress_operator.Webhook.Agreed.{is_denied, mutator_of, is_denied-handle}
use ingress_operator.Tests.Data.{exact_glob, shop, shop_canary}

abbrev reconciler : Reconciler
reconciler = record {
  gateway_namespace = codes "gw";
  gateway_name = codes "shared";
  gateway_class_name = codes "nginx";
  enable_deletion = true;
  hostname_rewrite_from = codes "old.io";
  hostname_rewrite_to = codes "new.io";
  post_processing_mode = keep_ingress;
  gateway_annotation_filters = [];
  http_route_annotation_filters = [];
  default_gateway_annotations = [];
  gateway_infrastructure_annotations = [];
  infrastructure_annotations_by_class = [];
  ingress_class_filters = codes "*" ∷ [];
  ingress_class_ignore_filters = [];
  ingress_class_empty = [];
  clear_ingress_status_on_disable = false;
  reconcile_cache_max_entries = 2;
}

abbrev empty_memory : Memory
empty_memory = record { reconcile_cache = some []; self_deleted_ingresses = [] }

Reach-IsBounded_example :
    IsBounded 2
      (maybe_record_reconcile insertion_order reconciler 7 shop_canary
        (maybe_record_reconcile insertion_order reconciler 5 shop empty_memory)).reconcile_cache
Reach-IsBounded_example =
    Reach-IsBounded insertion_order reconciler (omega arith)
      (then_step empty_memory
        (maybe_record_reconcile insertion_order reconciler 5 shop empty_memory)
        (maybe_record_reconcile insertion_order reconciler 7 shop_canary
          (maybe_record_reconcile insertion_order reconciler 5 shop empty_memory))
        (then_step empty_memory empty_memory
          (maybe_record_reconcile insertion_order reconciler 5 shop empty_memory)
          (here empty_memory) (recorded 5 shop empty_memory))
        (recorded 7 shop_canary
          (maybe_record_reconcile insertion_order reconciler 5 shop empty_memory)))
      (tt, omega arith)

-- A loaded cache that is larger than the bound.
abbrev loaded_cache : Dict ReconcileCacheEntry
loaded_cache =
    (codes "a", record { resource_version = codes "1"; updated_at_unix = pos 1 })
    ∷ (codes "b", record { resource_version = codes "2"; updated_at_unix = pos 2 })
    ∷ (codes "c", record { resource_version = codes "3"; updated_at_unix = pos 3 })
    ∷ []

abbrev loaded_memory : Memory
loaded_memory = record { reconcile_cache = some loaded_cache; self_deleted_ingresses = [] }

maybe_record_reconcile_bound_example :
    IsBounded 2
      (maybe_record_reconcile insertion_order reconciler 5 shop loaded_memory).reconcile_cache
maybe_record_reconcile_bound_example =
    maybe_record_reconcile_bound insertion_order reconciler 5 shop loaded_memory loaded_cache
      (omega arith) refl (unfold lookup same in (refl, (refl, (refl, tt)))) (unfold same in refl)

should_skip_reconcile-maybe_record_reconcile_example :
    (should_skip_reconcile 90 shop
      (maybe_record_reconcile insertion_order reconciler 50 shop empty_memory)).0
    ≡ (shop.resource_version == shop.resource_version && not (is_outdated 90 (pos (50 / second))))
should_skip_reconcile-maybe_record_reconcile_example =
    should_skip_reconcile-maybe_record_reconcile insertion_order reconciler 50 90 shop shop
      empty_memory [] refl (unfold same in refl) refl (unfold insert in refl)

was_self_deleted-mark_self_deleted_example :
    (was_self_deleted 90 shop (mark_self_deleted 50 shop empty_memory)).0 ≡ true
was_self_deleted-mark_self_deleted_example =
    was_self_deleted-mark_self_deleted 50 90 shop shop empty_memory (unfold same in refl) tt refl

should_skip_ingress-should_include_ingress_for_synthesis_example :
    (should_skip_ingress exact_glob reconciler 5 shop empty_memory).0 ≡ (
      not (should_include_ingress_for_synthesis exact_glob reconciler 5 shop empty_memory).0
      || (should_skip_reconcile 5 shop
          (should_include_ingress_for_synthesis exact_glob reconciler 5 shop empty_memory).1).0)
should_skip_ingress-should_include_ingress_for_synthesis_example =
    should_skip_ingress-should_include_ingress_for_synthesis exact_glob reconciler 5 shop
      empty_memory

abbrev other_shop : Ingress
other_shop = record shop { name = codes "shop-2"; created = 9 }

is_conflict_candidate_total_example :
    is_conflict_candidate exact_glob reconciler shop other_shop
    ≡ not (is_conflict_candidate exact_glob reconciler other_shop shop)
unfolding same is_canary get lookup is_in_scope matches_ingress_class_filter
    matches_ingress_class_ignore_filter match_ingress_class_patterns class_of some_of
is_conflict_candidate_total_example =
    is_conflict_candidate_total exact_glob reconciler shop other_shop refl refl refl

-- A reconciliation of one ingress that notes its name.
abbrev noted : Ingress → List Text → List Text × Option Failure
noted i names = (i.name ∷ names, none)

reconcile_canary_primaries-folds_in_example :
    reconcile_canary_primaries
      (λ s namespace. ok (shop ∷ shop_canary ∷ []))
      noted
      exact_glob
      reconciler
      shop_canary
      []
    ≡ reconcile_each noted
        (keep (folds_in exact_glob reconciler shop_canary) (shop ∷ shop_canary ∷ []))
        []
unfolding same is_canary get lookup is_in_scope matches_ingress_class_filter
    matches_ingress_class_ignore_filter match_ingress_class_patterns class_of some_of
reconcile_canary_primaries-folds_in_example =
    reconcile_canary_primaries-folds_in exact_glob reconciler
      (λ s namespace. ok (shop ∷ shop_canary ∷ [])) noted shop_canary refl (shop ∷ shop_canary ∷ [])
      [] refl

-- The primary of the canary is reconciled.
shop_canary-reconciled :
    reconcile_canary_primaries
      (λ s namespace. ok (shop ∷ shop_canary ∷ []))
      noted
      exact_glob
      reconciler
      shop_canary
      []
    ≡ (codes "shop" ∷ [], finished)
unfolding reconcile_canary_primaries reconcile_primaries_among is_primary_of same is_canary get
    lookup class_of some_of shares_host_path host_paths contains
shop_canary-reconciled = refl

contains-detect_snippet_conflicts_example :
    contains
      (detect_snippet_conflicts exact_glob reconciler
        (λ namespace. ok (shop ∷ other_shop ∷ []))
        other_shop).0
      (codes "ssl-ciphers")
    ≡ some_of (owns exact_glob reconciler other_shop (codes "ssl-ciphers")) (shop ∷ other_shop ∷ [])
contains-detect_snippet_conflicts_example =
    contains-detect_snippet_conflicts exact_glob reconciler
      (λ namespace. ok (shop ∷ other_shop ∷ [])) other_shop (shop ∷ other_shop ∷ [])
      (codes "ssl-ciphers") refl

restored_ingress-disabled_ingress_example :
    ((restored_ingress true false (disabled_ingress shop)).ingress_class_name
      ≡ some (codes "inner"))
    × ReadsLike (restored_ingress true false (disabled_ingress shop)).annotations shop.annotations
restored_ingress-disabled_ingress_example =
    restored_ingress-disabled_ingress shop
      (unfold lookup same in (refl, refl, refl, (refl, refl), tt))

abbrev dns_annotations : Dict Text
dns_annotations =
    (external_dns_hostname_annotation, codes "a.old.io")
    ∷ (external_dns_ingress_hostname_source, codes "defined-hosts-only")
    ∷ []

is_denied-handle_example :
    is_denied (handle exact_glob (mutator_of reconciler) (λ i. none) (ok shop)) ≡ (
      should_enqueue_ingress_by_class exact_glob reconciler shop
      && not (get ignore_ingress_annotation shop.annotations == true_text)
      && not (is_canary shop)
      && not (get allow_ingress_annotation shop.annotations == true_text))
is_denied-handle_example = is_denied-handle exact_glob reconciler (λ i. none) shop refl
