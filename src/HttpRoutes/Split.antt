-- ===== src/HttpRoutes/Split.antt =====
-- The parts of a split HTTPRoute have its rules, in order, and names of their own.
use ingress_operator.Prelude.{
  ℕ, zero, suc, ◌+◌, ◌≤◌, ◌<◌, ◌≡◌, ◌≢◌, refl, sym, ap, ◌∙◌, false, some, List, [], ◌∷◌, ◌++◌, map,
  append-nil, leb, if◌then◌else◌, length, drop, arith, length-drop, length-take_le,
  append-take-drop, All, contains, Distinct, Bool-cases, inl, inr,
}
use ingress_operator.Text.{Text, codes, text_eq}
use ingress_operator.Text.Laws.{same_ne}
use ingress_operator.Number.{format_int, parse_int, pos}
use ingress_operator.Number.RoundTrip.{parse_int-format_int}
use ingress_operator.Kube.{HttpRoute, RouteRule}
use ingress_operator.HttpRoutes.{max_http_route_rules, part, parts, split_http_route_if_needed}

-- The rules of some routes, one after the other.
unfoldable pub all_rules : List HttpRoute → List RouteRule
all_rules [] = []
all_rules (route ∷ routes) = route.rules ++ all_rules routes

-- The names of some routes.
unfoldable pub names_of : List HttpRoute → List Text
names_of = map λ (route : HttpRoute). route.name

-- A part of a route: at most 16 rules, and its other fields but the name.
abbrev pub IsPart : HttpRoute → HttpRoute → Type 0
IsPart route p =
    (length p.rules ≤ max_http_route_rules)
    × (record p { name = route.name; rules = route.rules } ≡ route)

parts-all_rules :
    (fuel n : ℕ) (route : HttpRoute) (rules : List RouteRule)
    → length rules ≤ fuel
    → all_rules (parts fuel route n rules) ≡ rules
unfolding all_rules parts part
parts-all_rules zero n route [] h = refl
parts-all_rules zero n route (r ∷ rules) h = absurd (omega (arith, h))
parts-all_rules (suc fuel) n route [] h = refl
parts-all_rules (suc fuel) n route (r ∷ rules) h =
    rw
      (parts-all_rules fuel (suc n) route (drop max_http_route_rules (r ∷ rules))
        (omega (arith, h, length-drop 15 rules)))
      (append-take-drop max_http_route_rules (r ∷ rules))

parts-IsPart :
    (fuel n : ℕ) (route : HttpRoute) (rules : List RouteRule)
    → All (IsPart route) (parts fuel route n rules)
unfolding parts part
parts-IsPart zero n route rules = tt
parts-IsPart (suc fuel) n route [] = tt
parts-IsPart (suc fuel) n route (r ∷ rules) = (
  (length-take_le max_http_route_rules (r ∷ rules), refl),
  parts-IsPart fuel (suc n) route (drop max_http_route_rules (r ∷ rules)),
)

append_cancel : (xs ys zs : Text) → xs ++ ys ≡ xs ++ zs → ys ≡ zs
append_cancel [] ys zs h = h
append_cancel (x ∷ xs) ys zs h = append_cancel xs ys zs (cc)

format_int_injective : (m n : ℕ) → format_int (pos m) ≡ format_int (pos n) → m ≡ n
format_int_injective m n h =
    let back : some (pos m) ≡ some (pos n) =
      sym (parse_int-format_int (suc (m + n)) (pos m) (omega arith))
      ∙ ap (parse_int (suc (m + n))) h
      ∙ parse_int-format_int (suc (m + n)) (pos n) (omega arith) in
    cc

-- The name of the part of a number.
abbrev part_name : HttpRoute → ℕ → Text
part_name route n = if leb n 1 then route.name else route.name ++ (codes "-" ++ format_int (pos n))

part_name_injective :
    (route : HttpRoute) (m n : ℕ) → 1 ≤ m → m < n → part_name route m ≢ part_name route n
part_name_injective route m n h k e =
    let later : leb n 1 ≡ false = ground (arith, h, k) in
    elim (Bool-cases (leb m 1)) [
      | inl b ↦
          let dash : [] ≡ codes "-" ++ format_int (pos n) =
            append_cancel route.name [] (codes "-" ++ format_int (pos n))
              (append-nil route.name ∙ (rw (b, later) at e)) in
          cc
      | inr b ↦
          let same_print : codes "-" ++ format_int (pos m) ≡ codes "-" ++ format_int (pos n) =
            append_cancel route.name (codes "-" ++ format_int (pos m))
              (codes "-" ++ format_int (pos n)) (rw (b, later) at e) in
          omega (
            arith,
            k,
            format_int_injective m n
                (append_cancel (codes "-") (format_int (pos m)) (format_int (pos n)) same_print),
          )
    ]

names_of-fresh :
    (fuel m n : ℕ) (route : HttpRoute) (rules : List RouteRule)
    → 1 ≤ m
    → m < n
    → contains (names_of (parts fuel route n rules)) (part_name route m) ≡ false
unfolding names_of parts part contains
names_of-fresh zero m n route rules h k = refl
names_of-fresh (suc fuel) m n route [] h k = refl
names_of-fresh (suc fuel) m n route (r ∷ rules) h k =
    rw
      (same_ne (part_name route n) (part_name route m)
        (λ e. part_name_injective route m n h k (sym e)))
      (names_of-fresh fuel m (suc n) route (drop max_http_route_rules (r ∷ rules)) h
        (omega (arith, k)))

parts-Distinct :
    (fuel n : ℕ) (route : HttpRoute) (rules : List RouteRule)
    → 1 ≤ n
    → Distinct (names_of (parts fuel route n rules))
unfolding names_of parts part
parts-Distinct zero n route rules h = tt
parts-Distinct (suc fuel) n route [] h = tt
parts-Distinct (suc fuel) n route (r ∷ rules) h = (
  names_of-fresh fuel n (suc n) route (drop max_http_route_rules (r ∷ rules)) h (omega arith),
  parts-Distinct fuel (suc n) route (drop max_http_route_rules (r ∷ rules)) (omega arith),
)

-- Together the parts of a split route have its rules, in order; each has at most 16 of them and
-- differs from the route in nothing but its rules and its name; and their names are different.
pub split_http_route_if_needed_lem :
    (route : HttpRoute)
    → (all_rules (split_http_route_if_needed route) ≡ route.rules)
      × All (IsPart route) (split_http_route_if_needed route)
      × Distinct (names_of (split_http_route_if_needed route))
unfolding split_http_route_if_needed all_rules names_of contains
split_http_route_if_needed_lem route =
    elim (Bool-cases (leb (length route.rules) max_http_route_rules)) [
      | inl b ↦ rw b (append-nil route.rules, ((ground (arith, b), refl), tt), (refl, tt))
      | inr b ↦ rw b (
        parts-all_rules (length route.rules) 1 route route.rules (omega arith),
        parts-IsPart (length route.rules) 1 route route.rules,
        parts-Distinct (length route.rules) 1 route route.rules (omega arith),
      )
    ]
