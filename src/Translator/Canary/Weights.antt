-- ===== src/Translator/Canary/Weights.antt =====
-- The weights of a canary: parsed in range, and split without loss.
use ingress_operator.Prelude.{
  ℕ, zero, suc, ◌-◌, ◌≤◌, ◌<◌, ◌≡◌, Bool, true, false, Option, none, some, List, [], ◌∷◌, ◌==◌,
  nat_eq, ltb, leb, arith, Bool-cases, inl, inr,
}
use ingress_operator.Text.{Text, text_eq}
use ingress_operator.Dict.{Dict, get}
use ingress_operator.Number.{parse_int, in_range, signed, parse_digits}
use ingress_operator.Kube.{Ingress, BackendRef, RouteMatch, RouteFilter}
use ingress_operator.Translator.Canary.{
  CanaryConfig, CanaryEntry, parse_canary_config, read_weight, read_weight_total, positive,
  config_of, weighted_rule, sub_int32, int32_cutoff, canary_weight_annotation,
  canary_weight_total_annotation,
}

-- The weight is at most the total, which is a positive int32.
pub record IsWeighed (config : CanaryConfig) : Type 0 where
  pub weight_le : config.weight ≤ config.weight_total
  pub total_pos : 0 < config.weight_total
  pub total_lt : config.weight_total < int32_cutoff

-- What holds of an optional value, if it is there.
abbrev pub OnSome {ℓ κ} : {A : Type ℓ} → (A → Type κ) → Option A → Type κ
OnSome P none = Unit
OnSome P (some a) = P a

in_range-positive :
    (cutoff : ℕ) (negative : Bool) (n : ℕ)
    → OnSome (λ m. (0 < m) × (m < cutoff)) (positive (in_range cutoff negative n))
unfolding in_range positive
in_range-positive cutoff negative zero = tt
in_range-positive cutoff true (suc n) = elim (Bool-cases (leb (suc n) cutoff)) [
  | inl e ↦ rw e tt
  | inr e ↦ rw e tt
]
in_range-positive cutoff false (suc n) = elim (Bool-cases (ltb (suc n) cutoff)) [
  | inl e ↦ rw e (omega arith, ground (arith, e))
  | inr e ↦ rw e tt
]

signed-positive :
    (cutoff : ℕ) (negative : Bool) (o : Option ℕ)
    → OnSome (λ m. (0 < m) × (m < cutoff)) (positive (signed cutoff negative o))
unfolding signed positive
signed-positive cutoff negative none = tt
signed-positive cutoff negative (some n) = in_range-positive cutoff negative n

parse_int-positive :
    (cutoff : ℕ) (raw : Text)
    → OnSome (λ m. (0 < m) × (m < cutoff)) (positive (parse_int cutoff raw))
unfolding parse_int positive
parse_int-positive cutoff [] = tt
parse_int-positive cutoff (c ∷ s) = elim (Bool-cases (c == b'-')) [
  | inl e ↦ rw e (signed-positive cutoff true (parse_digits s))
  | inr e ↦ rw e (elim (Bool-cases (c == b'+')) [
    | inl k ↦ rw k (signed-positive cutoff false (parse_digits s))
    | inr k ↦ rw k (signed-positive cutoff false (parse_digits (c ∷ s)))
  ])
]

read_weight_total_bounds :
    (raw : Text) → OnSome (λ m. (0 < m) × (m < int32_cutoff)) (read_weight_total raw)
unfolding read_weight_total
read_weight_total_bounds raw = elim (Bool-cases (raw == [])) [
  | inl e ↦ rw e (omega arith)
  | inr e ↦ rw e (parse_int-positive int32_cutoff raw)
]

config_of-IsWeighed :
    (annotations : Dict Text) (w u : Option ℕ)
    → OnSome (λ m. (0 < m) × (m < int32_cutoff)) u
    → OnSome IsWeighed (config_of annotations w u)
unfolding config_of
config_of-IsWeighed annotations none u h = tt
config_of-IsWeighed annotations (some w) none h = tt
config_of-IsWeighed annotations (some w) (some u) h = elim (Bool-cases (ltb u w)) [
  | inl e ↦ rw e tt
  | inr e ↦ rw e (record { weight_le = ground (arith, e); total_pos = h.0; total_lt = h.1 })
]

-- Every configuration that is parsed is in range, whatever the annotations say.
pub parse_canary_config-IsWeighed :
    (ingress : Ingress) → OnSome IsWeighed (parse_canary_config ingress)
unfolding parse_canary_config
parse_canary_config-IsWeighed ingress =
    config_of-IsWeighed ingress.annotations
      (read_weight (get canary_weight_annotation ingress.annotations))
      (read_weight_total (get canary_weight_total_annotation ingress.annotations))
      (read_weight_total_bounds (get canary_weight_total_annotation ingress.annotations))

-- The two weights of a valid configuration add up to its total, and neither wraps around.
pub weighted_rule_lem :
    (matches : List RouteMatch) (primary_ref : BackendRef) (entry : CanaryEntry)
    (filters : List RouteFilter)
    → IsWeighed entry.config
    → (weighted_rule matches primary_ref entry filters).backend_refs
      ≡ record primary_ref { weight = some (entry.config.weight_total - entry.config.weight) }
        ∷ record (entry.backend_ref) { weight = some entry.config.weight }
        ∷ []
unfolding weighted_rule sub_int32
weighted_rule_lem matches primary_ref entry filters h = ground (arith, h)
