-- ===== src/Text/Split.antt =====
-- strings.Split and strings.Join, and the tokens of a separated text.
use ingress_operator.Prelude.{
  ℕ, ◌++◌, ◌≡◌, refl, ◌∙◌, sym, true, false, not, List, [], ◌∷◌, map, arith, ap, contains, is_empty,
  nat_eq, All, keep, contains-append, append_assoc, ◌==◌,
}
use ingress_operator.Text.{
  Text, is_space, trim_space, cons_head, split, join, tokens, trim_left, trim_right,
}
use ingress_operator.Text.Trim.{
  trim_space_idem, contains-trim_space, trim_space-append, contains-trim_space_solid,
}

-- A part of a split never holds the separator.
abbrev pub Lacks : ℕ → Text → Type 0
Lacks sep t = contains t sep ≡ false

cons_head-Lacks :
    (sep c : ℕ) (ps : List Text)
    → (c == sep) ≡ false
    → All (Lacks sep) ps
    → All (Lacks sep) (cons_head c ps)
unfolding cons_head contains
cons_head-Lacks sep c [] e h = ground arith
cons_head-Lacks sep c (p ∷ ps) e h = (rw e h.0, h.1)

pub split-Lacks : (s : Text) (sep : ℕ) → All (Lacks sep) (split s sep)
unfolding split contains
split-Lacks [] sep = (refl, tt)
split-Lacks (c ∷ s) sep = ground (arith, split-Lacks s sep, cons_head-Lacks sep c (split s sep))

pub split_of_Lacks : (s : Text) (sep : ℕ) → Lacks sep s → split s sep ≡ s ∷ []
unfolding split cons_head contains
split_of_Lacks [] sep h = refl
split_of_Lacks (c ∷ s) sep h = ground (arith, split_of_Lacks s sep)

pub split-append :
    (p s : Text) (sep : ℕ) → Lacks sep p → split (p ++ (sep ∷ s)) sep ≡ p ∷ split s sep
unfolding split cons_head contains
split-append [] s sep h = ground arith
split-append (c ∷ p) s sep h = ground (arith, split-append p s sep)

-- A token: what a separated list can hold and give back.
pub record IsToken (sep : ℕ) (t : Text) : Type 0 where
  pub lacks : contains t sep ≡ false
  pub trimmed : trim_space t ≡ t
  pub filled : is_empty t ≡ false

trimmed_parts-IsToken :
    (sep : ℕ) (ps : List Text)
    → All (Lacks sep) ps
    → All (IsToken sep) (keep (λ t. not (is_empty t)) (map trim_space ps))
unfolding keep
trimmed_parts-IsToken sep [] h = tt
trimmed_parts-IsToken sep (p ∷ ps) h =
    ground
      (arith, trimmed_parts-IsToken sep ps h.1, contains-trim_space p sep h.0, trim_space_idem p)

pub tokens-IsToken : (sep : ℕ) (raw : Text) → All (IsToken sep) (tokens sep raw)
unfolding tokens
tokens-IsToken sep raw = trimmed_parts-IsToken sep (split raw sep) (split-Lacks raw sep)

tokens_of_Lacks :
    (sep : ℕ) (lead t : Text)
    → All (λ c. is_space c ≡ true) lead
    → Lacks sep lead
    → IsToken sep t
    → tokens sep (lead ++ t) ≡ t ∷ []
unfolding tokens keep
tokens_of_Lacks sep lead t spaces hl h = ground (
  arith,
  split_of_Lacks (lead ++ t) sep,
  contains-append lead t sep,
  trim_space-append lead t spaces,
)

tokens-append :
    (sep : ℕ) (lead t s : Text)
    → All (λ c. is_space c ≡ true) lead
    → Lacks sep lead
    → IsToken sep t
    → tokens sep ((lead ++ t) ++ (sep ∷ s)) ≡ t ∷ tokens sep s
unfolding tokens keep
tokens-append sep lead t s spaces hl h = ground (
  arith,
  split-append (lead ++ t) s sep,
  contains-append lead t sep,
  trim_space-append lead t spaces,
)

module _ (sep : ℕ) (pad : Text) (spaces : All (λ c. is_space c ≡ true) pad)
    (padding : Lacks sep pad) where
  tokens-join_from :
      (lead t : Text) (ts : List Text)
      → All (λ c. is_space c ≡ true) lead
      → Lacks sep lead
      → IsToken sep t
      → All (IsToken sep) ts
      → tokens sep (lead ++ join (t ∷ ts) (sep ∷ pad)) ≡ t ∷ ts
  unfolding join
  tokens-join_from lead t [] ls lp ht hts = tokens_of_Lacks sep lead t ls lp ht
  tokens-join_from lead t (u ∷ us) ls lp ht (hu, hus) =
      ap (tokens sep) (sym (append_assoc lead t ((sep ∷ pad) ++ join (u ∷ us) (sep ∷ pad))))
      ∙ tokens-append sep lead t (pad ++ join (u ∷ us) (sep ∷ pad)) ls lp ht
      ∙ ap (λ r. t ∷ r) (tokens-join_from pad u us spaces padding hu hus)

  -- The tokens of a joined list of tokens are that list.
  pub tokens-join : (ts : List Text) → All (IsToken sep) ts → tokens sep (join ts (sep ∷ pad)) ≡ ts
  unfolding join
  tokens-join [] h = unfold tokens split keep trim_space trim_left trim_right in refl
  tokens-join (t ∷ ts) (ht, h) = tokens-join_from [] t ts tt (unfold contains in refl) ht h

-- A blank text has no tokens.
pub tokens_of_blank :
    (sep : ℕ) (raw : Text) → is_space sep ≡ false → trim_space raw ≡ [] → tokens sep raw ≡ []
unfolding tokens keep contains
tokens_of_blank sep raw h e =
    rw (split_of_Lacks raw sep (sym (contains-trim_space_solid raw sep h) ∙ rw e), e)

pub tokens-nil : (sep : ℕ) → tokens sep [] ≡ []
unfolding tokens split keep trim_space trim_left trim_right
tokens-nil sep = refl
