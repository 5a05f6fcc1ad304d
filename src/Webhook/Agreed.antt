-- ===== src/Webhook/Agreed.antt =====
-- The webhook and the reconciler of ingresses agree on the ingresses that they take.
use ingress_operator.Prelude.{
  ◌≡◌, refl, Bool, true, false, not, ◌&&◌, ◌||◌, Option, none, some, List, [], ◌∷◌, ◌==◌, some_of,
  arith,
}
use ingress_operator.Text.{Text, codes, text_eq, same}
use ingress_operator.Dict.{get}
use ingress_operator.Kube.{Ingress}
use ingress_operator.Client.{ApiError, ok}
use ingress_operator.Translator.Canary.{is_canary}
use ingress_operator.Controller.{
  Reconciler, ignore_ingress_annotation, true_text, class_of, match_ingress_class_patterns,
  matches_to, matches_ingress_class_filter, matches_ingress_class_ignore_filter,
  should_enqueue_ingress_by_class,
}
use ingress_operator.Webhook.{
  IngressMutator, Response, allowed, denied, errored, patched, allow_ingress_annotation,
  get_ingress_class, has_wildcard, has_match, match_class_patterns, admitted_after, handle_decoded,
  handle,
}

abbrev pub is_denied : Response → Bool
is_denied (allowed t) = false
is_denied denied = true
is_denied (errored e) = false
is_denied (patched i) = false

-- The fields of the classes of a reconciler.
abbrev pub mutator_of : Reconciler → IngressMutator
mutator_of r = record {
  ingress_class_filters = r.ingress_class_filters;
  ingress_class_ignore_filters = r.ingress_class_ignore_filters;
  ingress_class_empty = r.ingress_class_empty;
}

has_wildcard_lem : (ps : List Text) → has_wildcard ps ≡ some_of (λ p. p == codes "*") ps
unfolding has_wildcard some_of
has_wildcard_lem [] = refl
has_wildcard_lem (p ∷ ps) = ground (arith, has_wildcard_lem ps)

has_match_lem :
    (glob : Text → Text → Option Bool) (c : Text) (ps : List Text)
    → has_match glob ps c
      ≡ some_of (λ p. not (p == [] || p == codes "*") && matches_to (glob p c)) ps
unfolding has_match some_of matches_to
has_match_lem glob c [] = refl
has_match_lem glob c (p ∷ ps) = tried (glob p c) refl (has_match_lem glob c ps)
  where
    tried :
        (o : Option Bool)
        → glob p c ≡ o
        → has_match glob ps c
          ≡ some_of (λ q. not (q == [] || q == codes "*") && matches_to (glob q c)) ps
        → has_match glob (p ∷ ps) c
          ≡ some_of (λ q. not (q == [] || q == codes "*") && matches_to (glob q c)) (p ∷ ps)
    tried none e h = rw (e, h) (ground arith)
    tried (some b) e h = rw (e, h) (ground arith)

match_class_patterns_lem :
    (glob : Text → Text → Option Bool) (ps : List Text) (c : Text)
    → match_class_patterns glob ps c ≡ match_ingress_class_patterns glob ps c
unfolding match_class_patterns match_ingress_class_patterns
match_class_patterns_lem glob [] c = unfold some_of in ground arith
match_class_patterns_lem glob (p ∷ ps) c =
    rw (has_wildcard_lem (p ∷ ps), has_match_lem glob c (p ∷ ps)) (ground arith)

get_ingress_class_lem :
    (r : Reconciler) (i : Ingress)
    → get_ingress_class (mutator_of r) i ≡ class_of r.ingress_class_empty i
unfolding get_ingress_class class_of
get_ingress_class_lem r i = go r.ingress_class_empty
  where
    go :
        (t : Text)
        → get_ingress_class (record (mutator_of r) { ingress_class_empty = t }) i ≡ class_of t i
    go [] = ground arith
    go (c ∷ cs) = unfold same in ground arith

-- With the filters of a reconciler, and an ingress that can be translated, the webhook denies
-- exactly what the reconciler enqueues by class, is not to be ignored, is no canary and is not
-- allowed by its annotation.
pub is_denied-handle :
    (glob : Text → Text → Option Bool) (r : Reconciler)
    (translate_error : Ingress → Option ApiError) (i : Ingress)
    → translate_error i ≡ none
    → is_denied (handle glob (mutator_of r) translate_error (ok i)) ≡ (
        should_enqueue_ingress_by_class glob r i
        && not (get ignore_ingress_annotation i.annotations == true_text)
        && not (is_canary i)
        && not (get allow_ingress_annotation i.annotations == true_text))
unfolding handle handle_decoded should_enqueue_ingress_by_class matches_ingress_class_filter
    matches_ingress_class_ignore_filter admitted_after
is_denied-handle glob r translate_error i e =
    rw
      (
        e,
        match_class_patterns_lem glob r.ingress_class_filters,
        match_class_patterns_lem glob r.ingress_class_ignore_filters,
        get_ingress_class_lem r i,
      )
      (ground arith)
