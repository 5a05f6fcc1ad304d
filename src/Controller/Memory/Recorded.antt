-- ===== src/Controller/Memory/Recorded.antt =====
-- What is recorded is skipped while its version stays the same and its entry is fresh.
use ingress_operator.Prelude.{
  ℕ, ◌+◌, ◌/◌, ◌≡◌, refl, ◌∙◌, true, false, not, ◌&&◌, none, some, [], ◌∷◌, ◌==◌, ltb, length,
  arith, Bool-cases, inl, inr,
}
use ingress_operator.Text.{Text, text_eq, same_iff}
use ingress_operator.Text.Laws.{same_refl}
use ingress_operator.Dict.{Dict, lookup, insert, MapOrder, IsMap, insert-IsMap, lookup-insert}
use ingress_operator.Number.{pos}
use ingress_operator.Kube.{Ingress}
use ingress_operator.ReconcileCache.{ReconcileCacheEntry, reconcile_cache_key}
use ingress_operator.Controller.{Reconciler}
use ingress_operator.Controller.Memory.{
  Memory, second, record_entry, recorded_cache, maybe_record_reconcile, skip_entry, skip_cache,
  should_skip_reconcile, is_outdated, drop_expired, mark_self_deleted, was_self_deleted, is_recent,
  self_deleted_ingress_ttl,
}

-- The entry of an ingress that is recorded at a time.
abbrev pub entry_at : ℕ → Ingress → ReconcileCacheEntry
entry_at now ingress = record {
  resource_version = ingress.resource_version;
  updated_at_unix = pos (now / second);
}

skip_entry_found :
    (now : ℕ) (ingress : Ingress) (cache : Dict ReconcileCacheEntry) (last : ReconcileCacheEntry)
    → (skip_entry now ingress cache (some last)).0 ≡ (
        last.resource_version == ingress.resource_version
        && not (is_outdated now last.updated_at_unix))
unfolding skip_entry
skip_entry_found now ingress cache last = ground arith

drop_expired-none :
    (later : ℕ) (uid : Text) (d : Dict ℕ)
    → lookup uid d ≡ none
    → lookup uid (drop_expired later d) ≡ none
unfolding lookup drop_expired
drop_expired-none later uid [] h = refl
drop_expired-none later uid ((k, t) ∷ d) h = ground (arith, h, drop_expired-none later uid d)

-- Dropping the expired marks changes no answer.
is_recent-drop_expired :
    (later : ℕ) (uid : Text) (d : Dict ℕ)
    → IsMap d
    → is_recent later (lookup uid (drop_expired later d)) ≡ is_recent later (lookup uid d)
unfolding is_recent lookup drop_expired
is_recent-drop_expired later uid [] h = refl
is_recent-drop_expired later uid ((k, t) ∷ d) h =
    ground (
      arith,
      is_recent-drop_expired later uid d h.1,
      drop_expired-none later k d h.0,
      same_iff k uid,
    )

-- An ingress that is recorded with a version, without an eviction, is skipped later exactly if it
-- still has that version and the entry is not outdated.
pub should_skip_reconcile-maybe_record_reconcile :
    (order : MapOrder) (r : Reconciler) (now later : ℕ) (ingress latest : Ingress) (m : Memory)
    (cache : Dict ReconcileCacheEntry)
    → m.reconcile_cache ≡ some cache
    → (ingress.resource_version == []) ≡ false
    → latest.uid ≡ ingress.uid
    → (ltb 0 r.reconcile_cache_max_entries
        && ltb r.reconcile_cache_max_entries
            (length (insert (reconcile_cache_key ingress.uid) (entry_at now ingress) cache)))
      ≡ false
    → (should_skip_reconcile later latest (maybe_record_reconcile order r now ingress m)).0 ≡ (
        ingress.resource_version == latest.resource_version
        && not (is_outdated later (pos (now / second))))
unfolding should_skip_reconcile maybe_record_reconcile recorded_cache record_entry skip_cache
should_skip_reconcile-maybe_record_reconcile order r now later ingress latest m cache e v u room =
    rw (e, v, room, u, lookup-insert, same_refl (reconcile_cache_key ingress.uid))
      (elim (Bool-cases (latest.resource_version == [])) [
        | inl b ↦ rw (b, other_version b) refl
        | inr b ↦
            rw b (
              skip_entry_found later (record latest { uid = ingress.uid }) _ (entry_at now ingress))
      ])
  where
    other_version :
        (latest.resource_version == []) ≡ true
        → (ingress.resource_version == latest.resource_version) ≡ false
    other_version b = ground (
      arith,
      v,
      b,
      same_iff latest.resource_version [],
      same_iff ingress.resource_version latest.resource_version,
      same_iff ingress.resource_version [],
    )

-- An ingress with a UID that the reconciler deleted is told apart exactly for the time to live.
pub was_self_deleted-mark_self_deleted :
    (now later : ℕ) (ingress latest : Ingress) (m : Memory)
    → (ingress.uid == []) ≡ false
    → IsMap m.self_deleted_ingresses
    → latest.uid ≡ ingress.uid
    → (was_self_deleted later latest (mark_self_deleted now ingress m)).0
      ≡ ltb later (now + self_deleted_ingress_ttl)
unfolding was_self_deleted mark_self_deleted
was_self_deleted-mark_self_deleted now later ingress latest m h k u =
    rw (u, h)
      (is_recent-drop_expired later ingress.uid (insert ingress.uid now m.self_deleted_ingresses)
          (insert-IsMap ingress.uid now m.self_deleted_ingresses k)
        ∙ rw (lookup-insert, same_refl ingress.uid) (unfold is_recent in refl))
