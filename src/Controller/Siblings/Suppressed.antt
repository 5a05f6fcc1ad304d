-- ===== src/Controller/Siblings/Suppressed.antt =====
-- Which server directives an ingress leaves to older ones.
use ingress_operator.Prelude.{
  ◌≡◌, refl, sym, ◌∙◌, Bool, true, false, ◌&&◌, ◌||◌, Option, none, some, List, [], ◌∷◌, ◌==◌,
  if◌then◌else◌, is_empty, some_of, contains, arith, Bool-cases, inl, inr,
}
use ingress_operator.Text.{Text, text_eq, same_iff}
use ingress_operator.Dict.{Dict, lookup}
use ingress_operator.Kube.{Ingress}
use ingress_operator.Client.{Answer, ok}
use ingress_operator.Controller.{Reconciler, get_translator}
use ingress_operator.Controller.Siblings.{
  transformed_host_set, shares_any_host, server_only_snippet_annotation_keys,
  server_only_snippet_suffix, declares, suppress_suffix, suppress_keys, is_conflict_candidate,
  detect_among, detect_snippet_conflicts,
}

-- The suffix is the text.
abbrev is_suffix : Text → Option Text → Bool
is_suffix x none = false
is_suffix x (some suffix) = suffix == x

-- Both ingresses have an annotation for the directive.
abbrev pub both_declare : Ingress → Ingress → Text → List Text → Bool
both_declare ingress sibling x = some_of λ key.
    declares ingress key && declares sibling key && is_suffix x (server_only_snippet_suffix key)

contains-suppress_suffix :
    (suppress : List Text) (o : Option Text) (x : Text)
    → contains (suppress_suffix suppress o) x ≡ (contains suppress x || is_suffix x o)
unfolding suppress_suffix contains
contains-suppress_suffix suppress none x = ground arith
contains-suppress_suffix suppress (some suffix) x = elim (Bool-cases (contains suppress suffix)) [
  | inl b ↦ rw b (already (suffix == x) refl b)
  | inr b ↦ rw b (ground arith)
]
  where
    already :
        (c : Bool)
        → (suffix == x) ≡ c
        → contains suppress suffix ≡ true
        → contains suppress x ≡ (contains suppress x || c)
    already false e b = ground arith
    already true e b = rw (← (same_iff suffix x).0 e, b) refl

contains-suppress_keys :
    (ingress sibling : Ingress) (keys suppress : List Text) (x : Text)
    → contains (suppress_keys ingress sibling keys suppress) x
      ≡ (contains suppress x || both_declare ingress sibling x keys)
unfolding suppress_keys some_of
contains-suppress_keys ingress sibling [] suppress x = ground arith
contains-suppress_keys ingress sibling (key ∷ keys) suppress x = ground (
  arith,
  contains-suppress_keys ingress sibling keys suppress x,
  contains-suppress_keys ingress sibling keys
      (suppress_suffix suppress (server_only_snippet_suffix key)) x,
  contains-suppress_suffix suppress (server_only_snippet_suffix key) x,
)

module _ (glob : Text → Text → Option Bool) (r : Reconciler) where
  -- The sibling owns the directive: it can win a conflict, serves one of the hosts, and both
  -- ingresses declare the directive.
  abbrev pub owns : Ingress → Text → Ingress → Bool
  owns ingress x sibling =
      is_conflict_candidate glob r sibling ingress
      && shares_any_host (transformed_host_set (get_translator r) ingress.rules) (get_translator r)
          sibling
      && both_declare ingress sibling x server_only_snippet_annotation_keys

  contains-detect_among :
      (ingress : Ingress) (siblings : List Ingress) (suppress overlaps : List Text) (x : Text)
      → contains (detect_among glob r ingress siblings suppress overlaps).0 x
        ≡ (contains suppress x || some_of (owns ingress x) siblings)
  unfolding detect_among some_of
  contains-detect_among ingress [] suppress overlaps x = ground arith
  contains-detect_among ingress (sibling ∷ siblings) suppress overlaps x =
      contains-detect_among ingress siblings _ _ x
      ∙ step (is_conflict_candidate glob r sibling ingress) (
          shares_any_host (transformed_host_set (get_translator r) ingress.rules) (get_translator r)
            sibling)
    where
      step :
          (a b : Bool)
          → (contains
                (if a && b
                  then suppress_keys ingress sibling server_only_snippet_annotation_keys suppress
                  else suppress)
                x
              || some_of (owns ingress x) siblings)
            ≡ (contains suppress x
                || ((a && b && both_declare ingress sibling x server_only_snippet_annotation_keys)
                    || some_of (owns ingress x) siblings))
      step false b = refl
      step true false = refl
      step true true =
          rw (contains-suppress_keys ingress sibling server_only_snippet_annotation_keys suppress x)
            (ground arith)

  none_owns :
      (p : Ingress → Bool)
      → ((sibling : Ingress) → p sibling ≡ false)
      → (siblings : List Ingress) → some_of p siblings ≡ false
  unfolding some_of
  none_owns p h [] = refl
  none_owns p h (sibling ∷ siblings) = rw (h sibling) (none_owns p h siblings)

  no_annotation :
      (ingress sibling : Ingress) (x : Text) (keys : List Text)
      → is_empty ingress.annotations ≡ true
      → both_declare ingress sibling x keys ≡ false
  unfolding some_of declares lookup
  no_annotation ingress sibling x keys h = go ingress.annotations refl h keys
    where
      go :
          (d : Dict Text)
          → ingress.annotations ≡ d
          → is_empty d ≡ true
          → (ks : List Text) → both_declare ingress sibling x ks ≡ false
      go d e b [] = refl
      go [] e b (k ∷ ks) = rw e (go [] e b ks)
      go (a ∷ d) e b (k ∷ ks) = absurd (ground (arith, b))

  no_host :
      (hosts : List Text) (sibling : Ingress)
      → is_empty hosts ≡ true
      → shares_any_host hosts (get_translator r) sibling ≡ false
  unfolding shares_any_host some_of contains
  no_host [] sibling h = go (transformed_host_set (get_translator r) sibling.rules)
    where
      go : (xs : List Text) → some_of (contains []) xs ≡ false
      go [] = refl
      go (x ∷ xs) = go xs
  no_host (x ∷ hosts) sibling h = absurd (ground (arith, h))

  -- Where the ingresses of the namespace are listed, a directive is suppressed exactly if one of them
  -- owns it: it can win a conflict, serves one of the hosts, and both ingresses declare the directive.
  pub contains-detect_snippet_conflicts :
      (list_ingresses : Text → Answer (List Ingress)) (ingress : Ingress) (siblings : List Ingress)
      (x : Text)
      → list_ingresses ingress.namespace ≡ ok siblings
      → contains (detect_snippet_conflicts glob r list_ingresses ingress).0 x
        ≡ some_of (owns ingress x) siblings
  unfolding detect_snippet_conflicts contains
  contains-detect_snippet_conflicts list_ingresses ingress siblings x e =
      elim (Bool-cases (is_empty ingress.annotations)) [
        | inl b ↦ rw b (
            sym (
              none_owns (owns ingress x)
                (λ sibling.
                  rw (no_annotation ingress sibling x server_only_snippet_annotation_keys b)
                    (ground arith))
                siblings))
        | inr b ↦
            elim (Bool-cases (is_empty (transformed_host_set (get_translator r) ingress.rules))) [
              | inl c ↦
                  rw (b, c)
                    (sym (
                      none_owns (owns ingress x)
                        (λ sibling. rw (no_host _ sibling c) (ground arith)) siblings))
              | inr c ↦ rw (b, c, e) (contains-detect_among ingress siblings [] [] x)
            ]
      ]
