-- ===== src/Number.antt =====
-- strconv.ParseInt in base 10 and fmt's `%d`. `negsuc n` is -(n + 1).
pub mod RoundTrip
use ingress_operator.Prelude.{
  ℕ, zero, suc, ◌+◌, ◌-◌, ◌*◌, ◌/◌, ◌%◌, ◌^◌, Bool, true, false, ◌&&◌, Option, none, some, [], ◌∷◌,
  ◌==◌, nat_eq, ltb, leb, if◌then◌else◌,
}
use ingress_operator.Text.{Text}

pub data ℤ : Type 0 where
  pos : ℕ → ℤ
  negsuc : ℕ → ℤ

-- The value of decimal digits behind a number, or `none` at another character.
unfoldable pub scan : Text → ℕ → Option ℕ
scan [] n = some n
scan (c ∷ s) n =
    let rest = scan s (n * 10 + (c - b'0')) in if leb b'0' c && leb c b'9' then rest else none

unfoldable pub parse_digits : Text → Option ℕ
unfolding scan
parse_digits [] = none
parse_digits (c ∷ s) = scan (c ∷ s) 0

-- The range check of a signed integer whose values lie below `cutoff`.
unfoldable pub in_range : ℕ → Bool → ℕ → Option ℤ
in_range cutoff negative zero = some (pos 0)
in_range cutoff true (suc n) = if leb (suc n) cutoff then some (negsuc n) else none
in_range cutoff false (suc n) = if ltb (suc n) cutoff then some (pos (suc n)) else none

unfoldable pub signed : ℕ → Bool → Option ℕ → Option ℤ
signed cutoff negative none = none
signed cutoff negative (some n) = in_range cutoff negative n

-- The cutoff is `2 ^ (bits - 1)`.
unfoldable pub parse_int : ℕ → Text → Option ℤ
unfolding parse_digits in_range signed
parse_int cutoff [] = none
parse_int cutoff (c ∷ s) =
    if c == b'-'
    then signed cutoff true (parse_digits s)
    else if c == b'+'
    then signed cutoff false (parse_digits s)
    else signed cutoff false (parse_digits (c ∷ s))

-- The digits of a number in front of a text. The fuel is enough if the number is below it.
unfoldable pub emit : ℕ → ℕ → Text → Text
emit zero n out = out
emit (suc fuel) n out =
    let out' = (b'0' + n % 10) ∷ out in
    let rest = emit fuel (n / 10) out' in if ltb n 10 then out' else rest

unfoldable pub format_int : ℤ → Text
unfolding emit
format_int (pos n) = emit (suc n) n []
format_int (negsuc n) = b'-' ∷ emit (suc (suc n)) (suc n) []

abbrev pub pos_part : ℤ → ℕ
pos_part (pos n) = n
pos_part (negsuc n) = 0

abbrev pub neg_part : ℤ → ℕ
neg_part (pos n) = 0
neg_part (negsuc n) = suc n

-- a - b, as an integer.
abbrev pub sub_ℕ : ℕ → ℕ → ℤ
sub_ℕ a b = if leb b a then pos (a - b) else negsuc (b - a - 1)

abbrev pub ltb_ℤ : ℤ → ℤ → Bool
ltb_ℤ a b = ltb (pos_part a + neg_part b) (pos_part b + neg_part a)
