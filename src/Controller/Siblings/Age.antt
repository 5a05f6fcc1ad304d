-- ===== src/Controller/Siblings/Age.antt =====
-- The older of two ingresses is determined.
use ingress_operator.Prelude.{
  ◌≡◌, refl, Bool, true, false, not, ◌||◌, Option, [], ◌∷◌, ◌==◌, nat_eq, arith,
}
use ingress_operator.Text.{Text, text_eq, same, same_iff}
use ingress_operator.Kube.{Ingress}
use ingress_operator.Translator.Canary.{is_canary}
use ingress_operator.Controller.{Reconciler}
use ingress_operator.Controller.Siblings.{
  text_lt, is_older_ingress, is_in_scope, is_conflict_candidate,
}

-- Two names that differ are ordered in one direction.
text_lt_total : (s t : Text) → (s == t) ≡ false → text_lt s t ≡ not (text_lt t s)
unfolding text_lt same
text_lt_total [] [] h = absurd (ground (arith, h))
text_lt_total [] (d ∷ t) h = refl
text_lt_total (c ∷ s) [] h = refl
text_lt_total (c ∷ s) (d ∷ t) h = ground (arith, h, text_lt_total s t)

-- Of two ingresses with different names exactly one is the older.
pub is_older_ingress_total :
    (a b : Ingress) → (a.name == b.name) ≡ false → is_older_ingress a b ≡ not (is_older_ingress b a)
unfolding is_older_ingress
is_older_ingress_total a b h = ground (arith, text_lt_total a.name b.name h)

text_lt_transitive : (s t u : Text) → text_lt s t ≡ true → text_lt t u ≡ true → text_lt s u ≡ true
unfolding text_lt
text_lt_transitive s t [] h k = ground (arith, k)
text_lt_transitive [] t (e ∷ u) h k = refl
text_lt_transitive (c ∷ s) [] (e ∷ u) h k = ground (arith, h)
text_lt_transitive (c ∷ s) (d ∷ t) (e ∷ u) h k = ground (arith, h, k, text_lt_transitive s t u)

-- To be the older is transitive.
pub is_older_ingress_transitive :
    (a b c : Ingress)
    → is_older_ingress a b ≡ true
    → is_older_ingress b c ≡ true
    → is_older_ingress a c ≡ true
unfolding is_older_ingress
is_older_ingress_transitive a b c h k =
    ground (arith, h, k, text_lt_transitive a.name b.name c.name)

module _ (glob : Text → Text → Option Bool) (r : Reconciler) where
  -- Of two ingresses with different names that are no canaries, are not being deleted and have
  -- classes that the reconciler looks after, exactly one can win a conflict against the other.
  pub is_conflict_candidate_total :
      (a b : Ingress)
      → (a.name == b.name) ≡ false
      → (is_canary a || a.deleting || not (is_in_scope glob r a)) ≡ false
      → (is_canary b || b.deleting || not (is_in_scope glob r b)) ≡ false
      → is_conflict_candidate glob r a b ≡ not (is_conflict_candidate glob r b a)
  unfolding is_conflict_candidate
  is_conflict_candidate_total a b h k l =
      ground (
        arith,
        h,
        k,
        l,
        is_older_ingress_total a b h,
        same_iff a.name b.name,
        same_iff b.name a.name,
      )
