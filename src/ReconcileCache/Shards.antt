-- ===== src/ReconcileCache/Shards.antt =====
-- What one shard holds, and what is read from it.
use ingress_operator.Prelude.{
  ℕ, suc, ◌+◌, ◌≡◌, refl, ◌∙◌, ap, sym, Option, none, some, [], ◌∷◌, ◌++◌, ◌==◌, nat_eq,
  if◌then◌else◌, arith, inl, inr, Bool-cases, Option-cases,
}
use ingress_operator.Text.{Text, text_eq, same_iff}
use ingress_operator.Dict.{Dict, IsMap, lookup, insert, lookup-insert, insert-IsMap}
use ingress_operator.Number.{ℤ, ltb_ℤ, pos, parse_int, format_int}
use ingress_operator.Number.RoundTrip.{parse_int-format_int}
use ingress_operator.ReconcileCache.{
  ReconcileCacheEntry, parse_reconcile_cache_entry, format_reconcile_cache_entry, read_entry,
  read_entries, shard_content, reconcile_cache_shard_for_key, shard_name,
}
use ingress_operator.ReconcileCache.Entry.{IsEntry, parse-format_reconcile_cache_entry}

-- An entry that is not stale.
pub fresh : ℤ → Option ReconcileCacheEntry → Option ReconcileCacheEntry
fresh cutoff none = none
fresh cutoff (some e) = if ltb_ℤ e.updated_at_unix cutoff then none else some e

unfoldable pub or_entry :
    Option ReconcileCacheEntry → Option ReconcileCacheEntry → Option ReconcileCacheEntry
or_entry none b = b
or_entry (some e) b = some e

parsed : Option Text → Option ReconcileCacheEntry
parsed none = none
parsed (some v) = parse_reconcile_cache_entry v

lookup-read_entry :
    (cutoff : ℤ) (k j : Text) (o : Option ReconcileCacheEntry) (out : Dict ReconcileCacheEntry)
    → lookup k (read_entry cutoff j o out)
      ≡ (if j == k then or_entry (fresh cutoff o) (lookup k out) else lookup k out)
unfolding read_entry or_entry fresh
lookup-read_entry cutoff k j none out = ground arith
lookup-read_entry cutoff k j (some e) out = ground (arith, lookup-insert k j e out)

lookup-read_entries :
    (cutoff : ℤ) (k : Text) (content : Dict Text) (out : Dict ReconcileCacheEntry)
    → IsMap content
    → lookup k (read_entries cutoff content out)
      ≡ or_entry (fresh cutoff (parsed (lookup k content))) (lookup k out)
unfolding read_entries lookup fresh or_entry parsed
lookup-read_entries cutoff k [] out h = refl
lookup-read_entries cutoff k ((j, v) ∷ content) out (hj, h) = ground (
  arith,
  lookup-read_entries cutoff k content (read_entry cutoff j (parse_reconcile_cache_entry v) out) h,
  lookup-read_entry cutoff k j (parse_reconcile_cache_entry v) out,
  same_iff j k,
  hj,
)

formatted : Option ReconcileCacheEntry → Option Text
formatted none = none
formatted (some e) = some (format_reconcile_cache_entry e)

lookup-shard_content :
    (n shard : ℕ) (k : Text) (cache : Dict ReconcileCacheEntry) (out : Dict Text)
    → IsMap cache
    → lookup k (shard_content n shard cache out) ≡ (
        if reconcile_cache_shard_for_key k n == shard
        then elim (lookup k cache) [
          | none ↦ lookup k out
          | some e ↦ some (format_reconcile_cache_entry e)
        ]
        else lookup k out)
unfolding shard_content lookup
lookup-shard_content n shard k [] out h = ground arith
lookup-shard_content n shard k ((j, e) ∷ cache) out (hj, h) = ground (
  arith,
  lookup-shard_content n shard k cache out h,
  lookup-shard_content n shard k cache (insert j (format_reconcile_cache_entry e) out) h,
  lookup-insert k j (format_reconcile_cache_entry e) out,
  same_iff j k,
  hj,
)

shard_content-IsMap :
    (n shard : ℕ) (cache : Dict ReconcileCacheEntry) (out : Dict Text)
    → IsMap out
    → IsMap (shard_content n shard cache out)
unfolding shard_content
shard_content-IsMap n shard [] out h = h
shard_content-IsMap n shard ((j, e) ∷ cache) out h =
    elim (Bool-cases (reconcile_cache_shard_for_key j n == shard)) [
      | inl q ↦ rw q (
          shard_content-IsMap n shard cache _
            (insert-IsMap j (format_reconcile_cache_entry e) out h))
      | inr q ↦ rw q (shard_content-IsMap n shard cache out h)
    ]

-- What a shard that holds its part of the cache gives back.
pub lookup-shard :
    (cutoff : ℤ) (n shard : ℕ) (k : Text) (cache out : Dict ReconcileCacheEntry)
    → IsMap cache
    → ((e : ReconcileCacheEntry) → lookup k cache ≡ some e → IsEntry e)
    → lookup k (read_entries cutoff (shard_content n shard cache []) out) ≡ (
        if reconcile_cache_shard_for_key k n == shard
        then or_entry (fresh cutoff (lookup k cache)) (lookup k out)
        else lookup k out)
unfolding or_entry fresh parsed
lookup-shard cutoff n shard k cache out m entries =
    lookup-read_entries cutoff k _ out (shard_content-IsMap n shard cache [] tt)
    ∙ rw (lookup-shard_content n shard k cache [] m) (elim (Option-cases (lookup k cache)) [
      | inl e ↦ rw e (unfold lookup in ground arith)
      | inr (entry, e) ↦ rw e (
          unfold lookup in
          ground (arith, parse-format_reconcile_cache_entry entry (entries entry e)))
    ])

tail_of : Text → Text
tail_of [] = []
tail_of (c ∷ s) = s

append_cancel : (p s t : Text) → p ++ s ≡ p ++ t → s ≡ t
append_cancel [] s t h = h
append_cancel (c ∷ p) s t h = append_cancel p s t (unfold tail_of in ap tail_of h)

number_of : Option ℤ → ℕ
number_of (some (pos n)) = n
number_of _ = 0

-- Different shards have different names.
pub shard_name-injective : (base : Text) (i j : ℕ) → shard_name base i ≡ shard_name base j → i ≡ j
unfolding shard_name
shard_name-injective base i j h =
    let printed : format_int (pos i) ≡ format_int (pos j) =
      unfold tail_of in ap tail_of (append_cancel base _ _ h) in
    let read_i = parse_int-format_int (suc (i + j)) (pos i) (omega arith) in
    let read_j = parse_int-format_int (suc (i + j)) (pos j) (omega arith) in
    let both : some (pos i) ≡ some (pos j) =
      sym read_i ∙ ap (parse_int (suc (i + j))) printed ∙ read_j in
    unfold number_of in ap number_of both
