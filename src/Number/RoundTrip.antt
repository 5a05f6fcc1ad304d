-- ===== src/Number/RoundTrip.antt =====
-- A printed integer is read back.
use ingress_operator.Prelude.{
  ℕ, zero, suc, ◌+◌, ◌/◌, ◌%◌, ◌<◌, ◌≤◌, ◌≡◌, refl, false, some, [], ◌∷◌, nat_eq, ltb, arith,
  Bool-cases, inl, inr,
}
use ingress_operator.Text.{Text}
use ingress_operator.Number.{
  ℤ, pos, negsuc, scan, parse_digits, in_range, signed, parse_int, emit, format_int,
}

-- The values of a signed integer with that cutoff.
abbrev pub InRange : ℕ → ℤ → Type 0
InRange cutoff (pos n) = n < cutoff
InRange cutoff (negsuc n) = n < cutoff

scan-emit : (fuel n : ℕ) (out : Text) → n < fuel → scan (emit fuel n out) 0 ≡ scan out n
unfolding scan emit
scan-emit zero n out h = absurd (omega arith)
scan-emit (suc fuel) n out h = ground (arith, scan-emit fuel (n / 10) ((b'0' + n % 10) ∷ out))

-- The first character of a print is a digit.
abbrev StartsWithDigit : Text → Type 0
StartsWithDigit [] = ⊥
StartsWithDigit (c ∷ s) = (b'0' ≤ c) × (c ≤ b'9')

emit-StartsWithDigit : (fuel n : ℕ) (out : Text) → n < fuel → StartsWithDigit (emit fuel n out)
unfolding emit
emit-StartsWithDigit zero n out h = absurd (omega arith)
emit-StartsWithDigit (suc fuel) n out h = elim (Bool-cases (ltb n 10)) [
  | inl e ↦ rw e (omega arith)
  | inr e ↦ rw e (emit-StartsWithDigit fuel (n / 10) _ (ground (arith, e)))
]

parse_digits-emit : (n : ℕ) → parse_digits (emit (suc n) n []) ≡ some n
parse_digits-emit n =
    go (emit (suc n) n []) (emit-StartsWithDigit (suc n) n [] (omega arith))
      (scan-emit (suc n) n [] (omega arith))
  where
    go : (s : Text) → StartsWithDigit s → scan s 0 ≡ scan [] n → parse_digits s ≡ some n
    go [] h e = absurd h
    go (c ∷ s) h e = unfold parse_digits in e

parse_int_digit :
    (cutoff : ℕ) (s : Text)
    → StartsWithDigit s
    → parse_int cutoff s ≡ signed cutoff false (parse_digits s)
unfolding parse_int
parse_int_digit cutoff [] h = absurd h
parse_int_digit cutoff (c ∷ s) h = ground arith

in_range_pos : (cutoff n : ℕ) → n < cutoff → signed cutoff false (some n) ≡ some (pos n)
unfolding signed in_range
in_range_pos cutoff zero h = refl
in_range_pos cutoff (suc n) h = ground arith

-- A signed integer in its range is read back from its decimal print.
pub parse_int-format_int :
    (cutoff : ℕ) (z : ℤ) → InRange cutoff z → parse_int cutoff (format_int z) ≡ some z
unfolding format_int
parse_int-format_int cutoff (pos n) h =
    rw
      (
        parse_int_digit cutoff _ (emit-StartsWithDigit (suc n) n [] (omega arith)),
        parse_digits-emit n,
      )
      (in_range_pos cutoff n h)
parse_int-format_int cutoff (negsuc n) h =
    unfold parse_int in rw (parse_digits-emit (suc n)) (ground (arith, h))
