-- ===== src/Text/Trim.antt =====
-- What strings.TrimSpace leaves.
use ingress_operator.Prelude.{
  ℕ, ◌++◌, ◌≡◌, refl, ◌∙◌, Bool, true, false, [], ◌∷◌, arith, ap, contains, nat_eq, All,
}
use ingress_operator.Text.{Text, is_space, trim_left, trim_right, trim_space}

module _ (p : ℕ → Bool) where
  trim_left-trim_right : (s : Text) → trim_left p (trim_right p s) ≡ trim_right p (trim_left p s)
  unfolding trim_left trim_right
  trim_left-trim_right [] = refl
  trim_left-trim_right (c ∷ s) = ground (arith, trim_left-trim_right s)

  trim_left_idem : (s : Text) → trim_left p (trim_left p s) ≡ trim_left p s
  unfolding trim_left
  trim_left_idem [] = refl
  trim_left_idem (c ∷ s) = ground (arith, trim_left_idem s)

  pub trim_right_idem : (s : Text) → trim_right p (trim_right p s) ≡ trim_right p s
  unfolding trim_right
  trim_right_idem [] = refl
  trim_right_idem (c ∷ s) = ground (arith, trim_right_idem s)

  contains-trim_left :
      (s : Text) (d : ℕ) → contains s d ≡ false → contains (trim_left p s) d ≡ false
  unfolding trim_left contains
  contains-trim_left [] d h = h
  contains-trim_left (c ∷ s) d h = ground (arith, contains-trim_left s d)

  pub contains-trim_right :
      (s : Text) (d : ℕ) → contains s d ≡ false → contains (trim_right p s) d ≡ false
  unfolding trim_right contains
  contains-trim_right [] d h = h
  contains-trim_right (c ∷ s) d h = ground (arith, contains-trim_right s d)

  trim_left-append :
      (pad s : Text) → All (λ c. p c ≡ true) pad → trim_left p (pad ++ s) ≡ trim_left p s
  unfolding trim_left
  trim_left-append [] s h = refl
  trim_left-append (c ∷ pad) s (hc, h) = rw hc (trim_left-append pad s h)

pub trim_space_idem : (s : Text) → trim_space (trim_space s) ≡ trim_space s
unfolding trim_space
trim_space_idem s = rw (
  trim_left-trim_right is_space (trim_left is_space s),
  trim_left_idem is_space s,
  trim_right_idem is_space,
)

pub contains-trim_space :
    (s : Text) (d : ℕ) → contains s d ≡ false → contains (trim_space s) d ≡ false
unfolding trim_space
contains-trim_space s d h = contains-trim_right is_space _ d (contains-trim_left is_space s d h)

-- Spaces in front are trimmed away.
pub trim_space-append :
    (pad s : Text) → All (λ c. is_space c ≡ true) pad → trim_space (pad ++ s) ≡ trim_space s
unfolding trim_space
trim_space-append pad s h = ap (trim_right is_space) (trim_left-append is_space pad s h)

module _ (p : ℕ → Bool) (d : ℕ) (solid : p d ≡ false) where
  contains-trim_left_solid : (s : Text) → contains (trim_left p s) d ≡ contains s d
  unfolding trim_left contains
  contains-trim_left_solid [] = refl
  contains-trim_left_solid (c ∷ s) = ground (arith, contains-trim_left_solid s, solid)

  contains-trim_right_solid : (s : Text) → contains (trim_right p s) d ≡ contains s d
  unfolding trim_right contains
  contains-trim_right_solid [] = refl
  contains-trim_right_solid (c ∷ s) = ground (arith, contains-trim_right_solid s, solid)

-- A character that is no space is not trimmed away.
pub contains-trim_space_solid :
    (s : Text) (d : ℕ) → is_space d ≡ false → contains (trim_space s) d ≡ contains s d
unfolding trim_space
contains-trim_space_solid s d h =
    contains-trim_right_solid is_space d h (trim_left is_space s)
    ∙ contains-trim_left_solid is_space d h s
