-- ===== src/Translator/Canary/Entries.antt =====
-- The canary entries of a path.
use ingress_operator.Prelude.{
  ◌≡◌, some, List, [], ◌∷◌, ◌==◌, Bool-cases, Option-cases, inl, inr, subst,
}
use mathlib.Core.Option.{some-injective}
use ingress_operator.Text.{Text, text_eq}
use ingress_operator.Dict.{Dict, lookup, insert}
use ingress_operator.Kube.{Ingress, IngressRule, HttpIngressPath}
use ingress_operator.Translator.Canary.{
  CanaryConfig, CanaryEntry, parse_canary_config, backend_ref_from_path, collect_paths,
  collect_rules, collect_from, collect_canary_entries,
}
use ingress_operator.Translator.Canary.Weights.{IsWeighed, parse_canary_config-IsWeighed}

-- Every entry of the map has a configuration in range.
abbrev pub AllWeighed : Dict CanaryEntry → Type 0
AllWeighed [] = Unit
AllWeighed ((k, e) ∷ d) = IsWeighed e.config × AllWeighed d

insert-AllWeighed :
    (k : Text) (e : CanaryEntry) (d : Dict CanaryEntry)
    → IsWeighed e.config
    → AllWeighed d
    → AllWeighed (insert k e d)
unfolding insert
insert-AllWeighed k e [] h a = (h, tt)
insert-AllWeighed k e ((j, f) ∷ d) h (hf, a) = elim (Bool-cases (j == k)) [
  | inl q ↦ rw q (h, a)
  | inr q ↦ rw q (hf, insert-AllWeighed k e d h a)
]

collect_paths-AllWeighed :
    (config : CanaryConfig) (paths : List HttpIngressPath) (d : Dict CanaryEntry)
    → IsWeighed config
    → AllWeighed d
    → AllWeighed (collect_paths config paths d)
unfolding collect_paths
collect_paths-AllWeighed config [] d h a = a
collect_paths-AllWeighed config (p ∷ paths) d h a = elim (Option-cases (backend_ref_from_path p)) [
  | inl e ↦ rw e (collect_paths-AllWeighed config paths d h a)
  | inr (r, e) ↦ rw e (
      collect_paths-AllWeighed config paths _ h
        (insert-AllWeighed p.path (record { config = config; backend_ref = r }) d h a))
]

collect_rules-AllWeighed :
    (config : CanaryConfig) (rules : List IngressRule) (d : Dict CanaryEntry)
    → IsWeighed config
    → AllWeighed d
    → AllWeighed (collect_rules config rules d)
unfolding collect_rules
collect_rules-AllWeighed config [] d h a = a
collect_rules-AllWeighed config (rule ∷ rules) d h a = elim (Option-cases rule.http) [
  | inl e ↦ rw e (collect_rules-AllWeighed config rules d h a)
  | inr (paths, e) ↦
      rw e (collect_rules-AllWeighed config rules _ h (collect_paths-AllWeighed config paths d h a))
]

collect_from-AllWeighed :
    (canaries : List Ingress) (d : Dict CanaryEntry)
    → AllWeighed d
    → AllWeighed (collect_from canaries d)
unfolding collect_from
collect_from-AllWeighed [] d a = a
collect_from-AllWeighed (c ∷ canaries) d a = elim (Option-cases (parse_canary_config c)) [
  | inl e ↦ rw e (collect_from-AllWeighed canaries d a)
  | inr (config, e) ↦ rw e (
      collect_from-AllWeighed canaries _
        (collect_rules-AllWeighed config c.rules d (rw e at (parse_canary_config-IsWeighed c)) a))
]

lookup-AllWeighed :
    (k : Text) (d : Dict CanaryEntry) {e : CanaryEntry}
    → AllWeighed d
    → lookup k d ≡ some e
    → IsWeighed e.config
unfolding lookup
lookup-AllWeighed k [] a h = cc
lookup-AllWeighed k ((j, f) ∷ d) {e} (hf, a) h = elim (Bool-cases (j == k)) [
  | inl q ↦ subst (λ (x : CanaryEntry). IsWeighed x.config) (some-injective f e (rw q at h)) hf
  | inr q ↦ lookup-AllWeighed k d a (rw q at h)
]

-- Whatever canary ingresses are collected, invalid ones among them, an entry that a path has
-- carries weights in range.
pub collect_canary_entries-IsWeighed :
    (canaries : List Ingress) (path : Text) {entry : CanaryEntry}
    → lookup path (collect_canary_entries canaries) ≡ some entry
    → IsWeighed entry.config
unfolding collect_canary_entries
collect_canary_entries-IsWeighed canaries path h =
    lookup-AllWeighed path _ (collect_from-AllWeighed canaries [] tt) h
