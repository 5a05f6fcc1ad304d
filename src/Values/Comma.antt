-- ===== src/Values/Comma.antt =====
-- ParseCommaSeparatedList, ContainsString and RemoveString.
use ingress_operator.Prelude.{
  ◌≡◌, refl, not, ◌&&◌, List, [], ◌∷◌, arith, ◌==◌, contains, All, Distinct, ap, ◌∙◌, Bool-cases,
  inl, inr,
}
use ingress_operator.Text.{Text, codes, text_eq, same_iff, is_space, trim_space, join, tokens}
use ingress_operator.Text.Split.{IsToken, tokens-IsToken, tokens-join, tokens_of_blank}
use ingress_operator.Values.{
  unique_by, unique, parse_comma_separated_list, contains_string, remove_string, split_sources,
}
use ingress_operator.Values.Unique.{
  contains-unique, unique-Distinct, unique-All, unique_of_Distinct,
}

abbrev pub IsValue : Text → Type 0
IsValue = IsToken b','

parse_lem : (raw : Text) → parse_comma_separated_list raw ≡ unique [] (tokens b',' raw)
unfolding parse_comma_separated_list
parse_lem raw = elim (Bool-cases (trim_space raw == [])) [
  | inl e ↦
      rw (e, tokens_of_blank b',' raw (unfold is_space in refl) ((same_iff _ _).0 e))
        (unfold unique_by in refl)
  | inr e ↦ rw e
]

-- The result of parse_comma_separated_list has no repetition, and each of its entries is trimmed,
-- not empty and free of commas, whatever the text.
pub parse_comma_separated_list-clean :
    (raw : Text)
    → Distinct (parse_comma_separated_list raw) × All IsValue (parse_comma_separated_list raw)
parse_comma_separated_list-clean raw =
    rw parse_lem (unique-Distinct [] _, unique-All IsValue [] _ (tokens-IsToken b',' raw))

-- It lists exactly the values that split_sources reads from the same text.
pub contains-parse_comma_separated_list :
    (raw s : Text) → contains (parse_comma_separated_list raw) s ≡ contains (split_sources raw) s
unfolding split_sources contains
contains-parse_comma_separated_list raw s = rw (parse_lem, contains-unique)

-- Clean values without repetition, joined by commas, are read back as they were.
pub parse_comma_separated_list-join :
    (values : List Text)
    → Distinct values
    → All IsValue values
    → parse_comma_separated_list (join values (codes ",")) ≡ values
parse_comma_separated_list-join values d h =
    parse_lem (join values (codes ","))
    ∙ ap (unique []) (tokens-join b',' [] tt (unfold contains in refl) values h)
    ∙ unique_of_Distinct values d

pub contains_string_lem :
    (slice : List Text) (s : Text) → contains_string slice s ≡ contains slice s
unfolding contains_string contains
contains_string_lem [] s = refl
contains_string_lem (x ∷ slice) s = ground (arith, contains_string_lem slice s)

-- After remove_string the string is gone, and every other one is listed as before.
pub contains_string-remove_string :
    (slice : List Text) (s t : Text)
    → contains_string (remove_string slice s) t ≡ (contains_string slice t && not (s == t))
unfolding contains_string remove_string
contains_string-remove_string [] s t = refl
contains_string-remove_string (x ∷ slice) s t =
    ground
      (arith, contains_string-remove_string slice s t, same_iff x s, same_iff x t, same_iff s t)
