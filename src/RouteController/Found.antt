-- ===== src/RouteController/Found.antt =====
-- Which listener is found after a change of the list.
use ingress_operator.Prelude.{
  ◌≡◌, refl, sym, ap, ◌∙◌, Bool, true, false, Option, none, some, List, [], ◌∷◌, ◌++◌, ◌==◌,
  if◌then◌else◌, contains, keep, arith, Bool-cases, inl, inr,
}
use ingress_operator.Text.{Text, text_eq, same_iff}
use ingress_operator.Dict.{Dict, keys}
use ingress_operator.Kube.{Listener}
use ingress_operator.RouteController.Listeners.{
  serves_hostname, find_listener, change_first, wanted,
}
use ingress_operator.RouteController.Kept.{serving}

other_hostname :
    (x h : Text) (o : Option Text)
    → (h == x) ≡ false
    → serves_hostname h o ≡ true
    → serves_hostname x o ≡ false
unfolding serves_hostname
other_hostname x h none ne e = refl
other_hostname x h (some y) ne e = rw ((same_iff y h).0 e) ne

pub find_listener-append :
    (x : Text) (ls : List Listener) (l : Listener)
    → serves_hostname x l.hostname ≡ false
    → find_listener x (ls ++ (l ∷ [])) ≡ find_listener x ls
unfolding find_listener
find_listener-append x [] l h = rw h refl
find_listener-append x (k ∷ ls) l h =
    ap (λ r. if serves_hostname x k.hostname then some k else r) (find_listener-append x ls l h)

pub find_listener-append_new :
    (x : Text) (ls : List Listener) (l : Listener)
    → find_listener x ls ≡ none
    → serves_hostname x l.hostname ≡ true
    → find_listener x (ls ++ (l ∷ [])) ≡ some l
unfolding find_listener
find_listener-append_new x [] l e h = rw h refl
find_listener-append_new x (k ∷ ls) l e h = elim (Bool-cases (serves_hostname x k.hostname)) [
  | inl b ↦ ground arith
  | inr b ↦ rw b (find_listener-append_new x ls l (sym (rw b refl) ∙ e) h)
]

abbrev pub changed : (Listener → Listener) → Option Listener → Option Listener
changed change none = none
changed change (some l) = some (change l)

module _ (change : Listener → Listener)
    (kept : (l : Listener) → (change l).hostname ≡ l.hostname) where
  pub find_listener-change_first :
      (x h : Text) (ls : List Listener)
      → (h == x) ≡ false
      → find_listener x (change_first change h ls) ≡ find_listener x ls
  unfolding find_listener change_first
  find_listener-change_first x h [] ne = refl
  find_listener-change_first x h (l ∷ ls) ne = elim (Bool-cases (serves_hostname h l.hostname)) [
    | inl b ↦ rw b (rw (kept l, other_hostname x h l.hostname ne b) refl)
    | inr b ↦ rw b (
        ap (λ r. if serves_hostname x l.hostname then some l else r)
          (find_listener-change_first x h ls ne))
  ]

  pub find_listener-change_first_same :
      (x : Text) (ls : List Listener)
      → find_listener x (change_first change x ls) ≡ changed change (find_listener x ls)
  unfolding find_listener change_first
  find_listener-change_first_same x [] = refl
  find_listener-change_first_same x (k ∷ ls) = elim (Bool-cases (serves_hostname x k.hostname)) [
    | inl b ↦ rw b (rw (kept k, b) refl)
    | inr b ↦ rw b (rw b (find_listener-change_first_same x ls))
  ]

pub find_listener-keep :
    (x : Text) (state : Dict (Dict Bool)) (ls : List Listener)
    → (x == []) ≡ false
    → contains (keys state) x ≡ true
    → find_listener x (keep (wanted state) ls) ≡ find_listener x ls
unfolding keep find_listener
find_listener-keep x state [] h c = refl
find_listener-keep x state (l ∷ ls) h c = elim (Bool-cases (serves_hostname x l.hostname)) [
  | inl b ↦
      let w : wanted state l ≡ true =
        unfold wanted in (ap (contains (keys state)) (serving x l.hostname h b) ∙ c) in
      rw w (rw b refl)
  | inr b ↦ elim (Bool-cases (wanted state l)) [
    | inl d ↦ rw d (rw b (find_listener-keep x state ls h c))
    | inr d ↦ rw (d, b) (find_listener-keep x state ls h c)
  ]
]
