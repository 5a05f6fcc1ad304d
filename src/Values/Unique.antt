-- ===== src/Values/Unique.antt =====
-- What the loops with a map `seen` keep.
use ingress_operator.Prelude.{
  ◌≡◌, refl, true, false, not, ◌&&◌, List, [], ◌∷◌, ◌++◌, arith, contains, contains-append, All,
  Distinct, ap, Bool-cases, inl, inr,
}
use ingress_operator.Text.{Text, text_eq, same_iff}
use ingress_operator.Values.{unique_by, unique}

-- A value is kept if it is listed and was not seen before.
pub contains-unique :
    (seen xs : List Text) (a : Text)
    → contains (unique seen xs) a ≡ (not (contains seen a) && contains xs a)
unfolding unique_by contains
contains-unique seen [] a = ground arith
contains-unique seen (x ∷ xs) a =
    ground (arith, contains-unique seen xs a, contains-unique (x ∷ seen) xs a, same_iff x a)

pub unique-Distinct : (seen xs : List Text) → Distinct (unique seen xs)
unfolding unique_by contains
unique-Distinct seen [] = tt
unique-Distinct seen (x ∷ xs) = ground (
  arith,
  unique-Distinct seen xs,
  unique-Distinct (x ∷ seen) xs,
  contains-unique (x ∷ seen) xs x,
  same_iff x x,
)

pub unique-All {κ} : (P : Text → Type κ) (seen xs : List Text) → All P xs → All P (unique seen xs)
unfolding unique_by
unique-All P seen [] h = tt
unique-All P seen (x ∷ xs) (hx, h) = elim (Bool-cases (contains seen x)) [
  | inl e ↦ rw e (unique-All P seen xs h)
  | inr e ↦ rw e (hx, unique-All P (x ∷ seen) xs h)
]

-- Only the set of the seen values matters.
pub unique_ext :
    (s t xs : List Text) → ((a : Text) → contains s a ≡ contains t a) → unique s xs ≡ unique t xs
unfolding unique_by contains
unique_ext s t [] h = refl
unique_ext s t (x ∷ xs) h =
    ground
      (arith, h x, unique_ext s t xs h, unique_ext (x ∷ s) (x ∷ t) xs (λ a. ground (arith, h a)))

unique_again : (x : Text) (s xs : List Text) → contains s x ≡ true → unique (x ∷ s) xs ≡ unique s xs
unfolding contains
unique_again x s xs h = unique_ext (x ∷ s) s xs (λ a. ground (arith, h, same_iff x a))

unique_middle :
    (x : Text) (xs s ys : List Text) → unique (xs ++ (x ∷ s)) ys ≡ unique (x ∷ (xs ++ s)) ys
unfolding contains
unique_middle x xs s ys =
    unique_ext (xs ++ (x ∷ s)) (x ∷ (xs ++ s)) ys
      (λ a. ground (arith, contains-append xs (x ∷ s) a, contains-append xs s a))

-- The loop over two lists is the loop over the first, then over the second with what was seen.
pub unique-append :
    (seen xs ys : List Text) → unique seen (xs ++ ys) ≡ unique seen xs ++ unique (xs ++ seen) ys
unfolding unique_by contains
unique-append seen [] ys = refl
unique-append seen (x ∷ xs) ys = ground (
  arith,
  unique-append seen xs ys,
  unique-append (x ∷ seen) xs ys,
  unique_again x (xs ++ seen) ys,
  unique_middle x xs seen ys,
  contains-append xs seen x,
)

All-fresh :
    (x : Text) (seen xs : List Text)
    → contains xs x ≡ false
    → All (λ a. contains seen a ≡ false) xs
    → All (λ a. contains (x ∷ seen) a ≡ false) xs
unfolding contains
All-fresh x seen [] h k = tt
All-fresh x seen (y ∷ ys) h k = ground (arith, All-fresh x seen ys, same_iff x y, same_iff y x)

unique_of_fresh :
    (seen xs : List Text)
    → Distinct xs
    → All (λ a. contains seen a ≡ false) xs
    → unique seen xs ≡ xs
unfolding unique_by
unique_of_fresh seen [] d h = refl
unique_of_fresh seen (x ∷ xs) (fresh, d) (hx, h) =
    rw hx (ap (λ r. x ∷ r) (unique_of_fresh (x ∷ seen) xs d (All-fresh x seen xs fresh h)))

All-true : (xs : List Text) → All (λ a. contains {A = Text} [] a ≡ false) xs
unfolding contains
All-true [] = tt
All-true (x ∷ xs) = (refl, All-true xs)

-- A list without repetition is left as it is.
pub unique_of_Distinct : (xs : List Text) → Distinct xs → unique [] xs ≡ xs
unique_of_Distinct xs d = unique_of_fresh [] xs d (All-true xs)
