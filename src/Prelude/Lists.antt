-- ===== src/Prelude/Lists.antt =====
-- Lists measured by native numbers, and searched by Go's `==`.
use Prim.Native.Nat.{ℕ, zero, suc, ◌+◌, ◌-◌, ◌≤◌}
use mathlib.Core.Path.{◌≡◌, refl, subst}
use mathlib.Core.Bool.{Bool, true, false, ◌&&◌, ◌||◌, false≢true}
use mathlib.Core.List.{List, [], ◌∷◌, ◌++◌}
use native.Mathlib.Omega.{arith}
use mathlib.Core.Logic.{inl, inr}
use ingress_operator.Prelude.Tests.{HasEquality, ◌==◌, if◌then◌else◌, Bool-cases, eq_of_iff}

module _ {ℓ} {A : Type ℓ} where
  abbrev pub length : List A → ℕ
  length [] = 0
  length (x ∷ xs) = suc (length xs)

  abbrev pub take : ℕ → List A → List A
  take zero xs = []
  take (suc n) [] = []
  take (suc n) (x ∷ xs) = x ∷ take n xs

  abbrev pub drop : ℕ → List A → List A
  drop zero xs = xs
  drop (suc n) [] = []
  drop (suc n) (x ∷ xs) = drop n xs

  abbrev pub is_empty : List A → Bool
  is_empty [] = true
  is_empty (x ∷ xs) = false

  -- The elements that pass a test, in order.
  unfoldable pub keep : (A → Bool) → List A → List A
  keep p [] = []
  keep p (x ∷ xs) = let rest = keep p xs in if p x then x ∷ rest else rest

  -- Whether some element passes a test.
  unfoldable pub some_of : (A → Bool) → List A → Bool
  some_of p [] = false
  some_of p (x ∷ xs) = p x || some_of p xs

  pub length-append : (xs ys : List A) → length (xs ++ ys) ≡ length xs + length ys
  length-append [] ys = omega arith
  length-append (x ∷ xs) ys = omega (arith, length-append xs ys)

  pub length-take_le : (n : ℕ) (xs : List A) → length (take n xs) ≤ n
  length-take_le zero xs = omega arith
  length-take_le (suc n) [] = omega arith
  length-take_le (suc n) (x ∷ xs) = omega (arith, length-take_le n xs)

  pub append-take-drop : (n : ℕ) (xs : List A) → take n xs ++ drop n xs ≡ xs
  append-take-drop zero xs = refl
  append-take-drop (suc n) [] = refl
  append-take-drop (suc n) (x ∷ xs) = rw (append-take-drop n xs) refl

  pub length-drop : (n : ℕ) (xs : List A) → length (drop n xs) ≡ length xs - n
  length-drop zero xs = omega arith
  length-drop (suc n) [] = omega arith
  length-drop (suc n) (x ∷ xs) = omega (arith, length-drop n xs)

  pub keep-append : (p : A → Bool) (xs ys : List A) → keep p (xs ++ ys) ≡ keep p xs ++ keep p ys
  unfolding keep
  keep-append p [] ys = refl
  keep-append p (x ∷ xs) ys = ground (arith, keep-append p xs ys)

-- A predicate that holds of every element.
abbrev pub All {ℓ κ} : {A : Type ℓ} → (A → Type κ) → List A → Type κ
All P [] = Unit
All P (x ∷ xs) = P x × All P xs

module _ {ℓ} {A : Type ℓ} ⦃e : HasEquality A⦄ where
  unfoldable pub contains : List A → A → Bool
  contains [] a = false
  contains (x ∷ xs) a = x == a || contains xs a

  abbrev pub Distinct : List A → Type 0
  Distinct [] = Unit
  Distinct (x ∷ xs) = (contains xs x ≡ false) × Distinct xs

  pub contains-append :
      (xs ys : List A) (a : A) → contains (xs ++ ys) a ≡ (contains xs a || contains ys a)
  unfolding contains
  contains-append [] ys a = refl
  contains-append (x ∷ xs) ys a = ground (arith, contains-append xs ys a)

  pub contains-keep :
      (p : A → Bool) (xs : List A) (a : A) → contains (keep p xs) a ≡ (p a && contains xs a)
  unfolding contains keep
  contains-keep p [] a = ground arith
  contains-keep p (x ∷ xs) a = ground (arith, contains-keep p xs a, e.equal_iff x a)

  pub keep-Distinct : (p : A → Bool) (xs : List A) → Distinct xs → Distinct (keep p xs)
  unfolding contains keep
  keep-Distinct p [] h = tt
  keep-Distinct p (x ∷ xs) h = ground (arith, keep-Distinct p xs h.1, contains-keep p xs x)

module _ {ℓ κ} {A : Type ℓ} (P : A → Type κ) where
  pub All-append : (xs ys : List A) → All P xs → All P ys → All P (xs ++ ys)
  All-append [] ys h k = k
  All-append (x ∷ xs) ys (px, h) k = (px, All-append xs ys h k)

  pub All-keep : (p : A → Bool) (xs : List A) → All P xs → All P (keep p xs)
  unfolding keep
  All-keep p [] h = tt
  All-keep p (x ∷ xs) (px, h) = elim (Bool-cases (p x)) [
    | inl e ↦ rw e (px, All-keep p xs h)
    | inr e ↦ rw e (All-keep p xs h)
  ]

module _ {ℓ κ} {A : Type ℓ} ⦃e : HasEquality A⦄ (P : A → Type κ) where
  -- What holds of all that a list contains holds of its elements.
  pub contains-All : (xs : List A) → ((a : A) → contains xs a ≡ true → P a) → All P xs
  unfolding contains
  contains-All [] h = tt
  contains-All (x ∷ xs) h =
      (h x (ground (arith, e.equal_iff x x)), contains-All xs (λ a k. h a (ground (arith, k))))

  pub All-at : (xs : List A) (a : A) → All P xs → contains xs a ≡ true → P a
  unfolding contains
  All-at [] a h k = absurd (false≢true k)
  All-at (x ∷ xs) a h k = elim (Bool-cases (x == a)) [
    | inl q ↦ subst P ((e.equal_iff x a).0 q) h.0
    | inr q ↦ All-at xs a h.1 (rw q at k)
  ]

module _ {ℓ} {A : Type ℓ} ⦃e : HasEquality A⦄ (p : A → Bool) where
  some_of_witness : (xs : List A) (a : A) → contains xs a ≡ true → p a ≡ true → some_of p xs ≡ true
  unfolding contains some_of
  some_of_witness [] a h k = absurd (false≢true h)
  some_of_witness (x ∷ xs) a h k = ground (arith, some_of_witness xs a, e.equal_iff x a)

  some_of_le :
      (xs ys : List A)
      → ((a : A) → contains xs a ≡ true → contains ys a ≡ true)
      → some_of p xs ≡ true
      → some_of p ys ≡ true
  unfolding some_of contains
  some_of_le [] ys h k = absurd (false≢true k)
  some_of_le (x ∷ xs) ys h k = elim (Bool-cases (p x)) [
    | inl q ↦ some_of_witness ys x (h x (ground (arith, e.equal_iff x x))) q
    | inr q ↦ some_of_le xs ys (λ a c. h a (ground (arith, c))) (rw q at k)
  ]

  -- Lists with the same elements answer alike.
  pub some_of_ext :
      (xs ys : List A) → ((a : A) → contains xs a ≡ contains ys a) → some_of p xs ≡ some_of p ys
  some_of_ext xs ys h =
      eq_of_iff (some_of p xs) (some_of p ys) (some_of_le xs ys (λ a c. rw (← h a) c))
        (some_of_le ys xs (λ a c. rw (h a) c))
