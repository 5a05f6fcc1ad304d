-- ===== src/Translator/Hostname/Laws.antt =====
-- TransformHostname: which hostnames it makes.
use ingress_operator.Prelude.{
  ℕ, ◌≡◌, refl, ap, sym, true, false, Bool, List, [], ◌∷◌, ◌++◌, arith, ◌==◌, nat_eq, is_empty, inl,
  ◌⊎◌, append_assoc,
}
use ingress_operator.Text.{
  Text, codes, text_eq, same, same_iff, cons_head, replace_from, split, has_prefix, trim_suffix,
  replace_all,
}
use ingress_operator.Text.Laws.{trim_suffix-append, has_suffix-append}
use ingress_operator.Text.Split.{IsToken, split_of_Lacks}
use ingress_operator.Translator.{Config}
use ingress_operator.Translator.Hostname.{
  all_valid, valid_label, is_valid_hostname, new_host, try_rules, transform_hostname,
}

try_rules-valid :
    (hostname : Text) (fs us : List Text)
    → (try_rules hostname fs us ≡ hostname) ⊎ (is_valid_hostname (try_rules hostname fs us) ≡ true)
unfolding try_rules
try_rules-valid hostname [] us = inl refl
try_rules-valid hostname (f ∷ fs) [] = inl refl
try_rules-valid hostname (f ∷ fs) (u ∷ us) = ground (arith, try_rules-valid hostname fs us)

-- A hostname is left as it is, or becomes one that the hostname syntax accepts, whatever the rules.
pub transform_hostname-valid :
    (t : Config) (hostname : Text)
    → (transform_hostname t hostname ≡ hostname)
      ⊎ (is_valid_hostname (transform_hostname t hostname) ≡ true)
unfolding transform_hostname
transform_hostname-valid t hostname = ground (
  arith,
  try_rules-valid hostname (split t.hostname_rewrite_from b',') (split t.hostname_rewrite_to b','),
)

-- All labels but the first are valid.
valid_tail : List Text → Bool
valid_tail [] = true
valid_tail (l ∷ ls) = all_valid ls

all_valid-tail : (ls : List Text) → all_valid ls ≡ true → valid_tail ls ≡ true
unfolding valid_tail all_valid
all_valid-tail [] h = refl
all_valid-tail (l ∷ ls) h = ground arith

valid_tail-cons_head : (c : ℕ) (ls : List Text) → valid_tail (cons_head c ls) ≡ valid_tail ls
unfolding valid_tail cons_head
valid_tail-cons_head c [] = unfold all_valid in refl
valid_tail-cons_head c (l ∷ ls) = refl

-- What is left to read behind a character, and no empty label between two dots.
valid_tail-step :
    (c : ℕ) (s : Text)
    → valid_tail (split (c ∷ s) b'.') ≡ true
    → (valid_tail (split s b'.') ≡ true) × (has_prefix (c ∷ s) (codes "..") ≡ false)
unfolding has_prefix valid_tail all_valid valid_label split cons_head
valid_tail-step c [] h = ground arith
valid_tail-step c (d ∷ s) h = ground (
  arith,
  valid_tail-cons_head c (split (d ∷ s) b'.'),
  valid_tail-cons_head d (split s b'.'),
  all_valid-tail (split (d ∷ s) b'.'),
)

-- Such a text has no two dots in a row to replace.
replace_from-valid :
    (s : Text) → valid_tail (split s b'.') ≡ true → replace_from (codes "..") (codes ".") 0 s ≡ s
unfolding replace_from
replace_from-valid [] h = refl
replace_from-valid (c ∷ s) h =
    let (rest, miss) = valid_tail-step c s h in
    rw miss (ap (λ r. c ∷ r) (replace_from-valid s rest))

ends_in_dot :
    (c : ℕ) (s : Text) → valid_tail (split (c ∷ s) b'.') ≡ true → ((c ∷ s) == codes ".") ≡ false
unfolding same valid_tail all_valid valid_label split cons_head
ends_in_dot c [] h = ground arith
ends_in_dot c (d ∷ s) h = ground arith

trim_suffix-valid : (s : Text) → valid_tail (split s b'.') ≡ true → trim_suffix s (codes ".") ≡ s
unfolding trim_suffix
trim_suffix-valid [] h = refl
trim_suffix-valid (c ∷ s) h =
    rw (ends_in_dot c s h) (ap (λ r. c ∷ r) (trim_suffix-valid s (valid_tail-step c s h).0))

new_host_lem :
    (p from to : Text)
    → is_empty p ≡ false
    → is_valid_hostname (p ++ (codes "." ++ to)) ≡ true
    → new_host (p ++ (codes "." ++ from)) from to ≡ p ++ (codes "." ++ to)
unfolding new_host replace_all is_valid_hostname
new_host_lem p from to filled valid =
    let tail = all_valid-tail (split (p ++ (codes "." ++ to)) b'.') valid in
    rw
      (
        sym (append_assoc p (codes ".") from),
        trim_suffix-append (p ++ codes ".") from,
        trim_suffix-append p (codes "."),
        filled,
      )
      (rw (replace_from-valid (p ++ (codes "." ++ to)) tail)
        (trim_suffix-valid (p ++ (codes "." ++ to)) tail))

-- With one rule from -> to, a hostname `p.from` becomes `p.to`, if that is a valid hostname.
pub transform_hostname-append :
    (t : Config) (p : Text)
    → IsToken b',' t.hostname_rewrite_from
    → IsToken b',' t.hostname_rewrite_to
    → is_empty p ≡ false
    → is_valid_hostname (p ++ (codes "." ++ t.hostname_rewrite_to)) ≡ true
    → transform_hostname t (p ++ (codes "." ++ t.hostname_rewrite_from))
      ≡ p ++ (codes "." ++ t.hostname_rewrite_to)
unfolding transform_hostname try_rules
transform_hostname-append t p from to filled valid = ground (
  arith,
  new_host_lem p t.hostname_rewrite_from t.hostname_rewrite_to filled valid,
  split_of_Lacks t.hostname_rewrite_from b',',
  split_of_Lacks t.hostname_rewrite_to b',',
  has_suffix-append (p ++ codes ".") t.hostname_rewrite_from,
  append_assoc p (codes ".") t.hostname_rewrite_from,
  same_iff t.hostname_rewrite_from [],
  same_iff t.hostname_rewrite_to [],
)
