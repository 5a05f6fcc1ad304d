-- ===== src/Text/Laws.antt =====
-- Equality, prefixes and suffixes of texts.
use ingress_operator.Prelude.{
  ℕ, ◌++◌, ◌≡◌, ◌≢◌, refl, ap, true, false, [], ◌∷◌, arith, ◌==◌, nat_eq, length, length-append,
  Bool-cases, inl, inr,
}
use ingress_operator.Text.{Text, text_eq, same_iff, has_prefix, has_suffix, trim_suffix}

pub same_refl : (s : Text) → (s == s) ≡ true
same_refl s = (same_iff s s).1 refl

pub same_ne : (s t : Text) → s ≢ t → (s == t) ≡ false
same_ne s t h = elim (Bool-cases (s == t)) [ inl e ↦ absurd (h ((same_iff s t).0 e)) | inr e ↦ e ]

pub has_prefix-append : (p s : Text) → has_prefix (p ++ s) p ≡ true
unfolding has_prefix
has_prefix-append [] [] = refl
has_prefix-append [] (c ∷ s) = refl
has_prefix-append (c ∷ p) s = ground (arith, has_prefix-append p s)

pub has_suffix-append : (p s : Text) → has_suffix (p ++ s) s ≡ true
unfolding has_suffix
has_suffix-append [] [] = same_refl []
has_suffix-append [] (c ∷ s) = ground (arith, same_refl (c ∷ s))
has_suffix-append (c ∷ p) s = ground (arith, has_suffix-append p s)

-- A suffix that is found is what trim_suffix takes away.
pub trim_suffix-append_self : (s t : Text) → has_suffix s t ≡ true → trim_suffix s t ++ t ≡ s
unfolding has_suffix trim_suffix
trim_suffix-append_self [] t h = ground (arith, same_iff [] t)
trim_suffix-append_self (c ∷ s) t h =
    ground (arith, trim_suffix-append_self s t, same_iff (c ∷ s) t)

longer-ne : (c : ℕ) (p t : Text) → c ∷ p ++ t ≢ t
longer-ne c p t e = absurd (omega (arith, ap length e, length-append p t))

pub trim_suffix-append : (p t : Text) → trim_suffix (p ++ t) t ≡ p
unfolding trim_suffix
trim_suffix-append [] [] = refl
trim_suffix-append [] (c ∷ t) = ground (arith, same_refl (c ∷ t))
trim_suffix-append (c ∷ p) t =
    ground (arith, same_ne (c ∷ (p ++ t)) t (longer-ne c p t), trim_suffix-append p t)
