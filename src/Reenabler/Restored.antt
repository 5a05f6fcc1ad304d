-- ===== src/Reenabler/Restored.antt =====
-- What was disabled is restored as it was.
use ingress_operator.Prelude.{
  ◌≡◌, refl, sym, ap, ◌∙◌, Bool, true, false, Option, none, some, [], ◌==◌, if◌then◌else◌,
  Bool-cases, inl, inr, arith,
}
use ingress_operator.Text.{Text, text_eq, same, same_iff}
use ingress_operator.Dict.{Dict, lookup, get, insert, lookup-insert, lookup-delete}
use ingress_operator.Kube.{Ingress}
use ingress_operator.Translator.{ingress_class_annotation}
use ingress_operator.Controller.{
  ingress_disabled_annotation, original_ingress_class_annotation,
  original_ingress_class_name_annotation, disabled_ingress_class_name,
  ingress_disabled_reason_normal, true_text,
}
use ingress_operator.Controller.Disable.{
  insert_if_none, insert_new, save_class_name, save_class, disabled_ingress,
}
use ingress_operator.Reenabler.{
  put_back, restored_class_name, restore_class_annotations, restored_ingress,
}

-- Two maps that are read alike.
abbrev pub ReadsLike : Dict Text → Dict Text → Type 0
ReadsLike d e = (k : Text) → lookup k d ≡ lookup k e

-- The class name is missing, or a filled one that is not the text of a true flag.
abbrev pub IsClassName : Option Text → Type 0
IsClassName none = Unit
IsClassName (some class) = ((class == []) ≡ false) × ((class == true_text) ≡ false)

-- The annotation is missing or filled.
abbrev pub IsFilled : Option Text → Type 0
IsFilled none = Unit
IsFilled (some v) = (v == []) ≡ false

-- An ingress that carries no mark of the reconciler, and no empty class.
abbrev pub IsUnmarked : Ingress → Type 0
IsUnmarked ingress =
    (lookup ingress_disabled_annotation ingress.annotations ≡ none)
    × (lookup original_ingress_class_annotation ingress.annotations ≡ none)
    × (lookup original_ingress_class_name_annotation ingress.annotations ≡ none)
    × IsClassName ingress.ingress_class_name
    × IsFilled (lookup ingress_class_annotation ingress.annotations)

pub lookup-put_back :
    (j k v : Text) (d : Dict Text)
    → lookup j (put_back k v d)
      ≡ (if k == j then (if v == [] then none else some v) else lookup j d)
unfolding put_back
lookup-put_back j k v d = ground (arith, lookup-insert j k v d, lookup-delete j k d)

pub insert_new_missing :
    (k v : Text) (d : Dict Text) → lookup k d ≡ none → insert_new k v d ≡ insert k v d
unfolding insert_new insert_if_none
insert_new_missing k v d h = ap (insert_if_none k v d) h

pub missing_is_none :
    (j k : Text) (d : Dict Text)
    → lookup k d ≡ none
    → lookup j d ≡ (if k == j then none else lookup j d)
missing_is_none j k d h = elim (Bool-cases (k == j)) [
  | inl b ↦ rw b (rw (← (same_iff k j).0 b) h)
  | inr b ↦ rw b refl
]

-- What save_class_name does to each key.
lookup-save_class_name :
    (j : Text) (class : Option Text) (d : Dict Text)
    → IsClassName class
    → lookup original_ingress_class_name_annotation d ≡ none
    → lookup j (save_class_name class d)
      ≡ (if original_ingress_class_name_annotation == j then class else lookup j d)
unfolding save_class_name
lookup-save_class_name j none d c h = missing_is_none j original_ingress_class_name_annotation d h
lookup-save_class_name j (some class) d c h =
    rw (c.1, insert_new_missing original_ingress_class_name_annotation class d h)
      (lookup-insert j original_ingress_class_name_annotation class d)

pub get_found : (k v : Text) (d : Dict Text) → lookup k d ≡ some v → get k d ≡ v
unfolding get
get_found k v d h = ground (arith, h)

pub get_missing : (k : Text) (d : Dict Text) → lookup k d ≡ none → get k d ≡ []
unfolding get
get_missing k d h = ground (arith, h)

lookup-save_class :
    (j : Text) (d : Dict Text) (o : Option Text)
    → lookup ingress_class_annotation d ≡ o
    → IsFilled o
    → lookup original_ingress_class_annotation d ≡ none
    → lookup j (save_class d) ≡ (if original_ingress_class_annotation == j then o else lookup j d)
unfolding save_class same
lookup-save_class j d none e f h =
    rw (get_missing ingress_class_annotation d e)
      (missing_is_none j original_ingress_class_annotation d h)
lookup-save_class j d (some v) e f h =
    rw
      (
        get_found ingress_class_annotation v d e,
        f,
        insert_new_missing original_ingress_class_annotation v d h,
      )
      (lookup-insert j original_ingress_class_annotation v d)

-- The annotations of an ingress that is disabled, key by key.
lookup-disabled_ingress :
    (j : Text) (ingress : Ingress)
    → IsUnmarked ingress
    → lookup j (disabled_ingress ingress).annotations ≡ (
        if ingress_disabled_annotation == j
        then some ingress_disabled_reason_normal
        else if ingress_class_annotation == j
        then some disabled_ingress_class_name
        else if original_ingress_class_annotation == j
        then lookup ingress_class_annotation ingress.annotations
        else if original_ingress_class_name_annotation == j
        then ingress.ingress_class_name
        else lookup j ingress.annotations)
unfolding disabled_ingress same
lookup-disabled_ingress j ingress (d, oc, ocn, c, f) =
    let named = save_class_name ingress.ingress_class_name ingress.annotations in
    let at : (k : Text)
        → lookup k named ≡ (
            if original_ingress_class_name_annotation == k
            then ingress.ingress_class_name
            else lookup k ingress.annotations) =
      λ k. lookup-save_class_name k ingress.ingress_class_name ingress.annotations c ocn in
    rw
      (
        lookup-insert j ingress_disabled_annotation,
        lookup-insert j ingress_class_annotation,
        lookup-save_class j named (lookup ingress_class_annotation ingress.annotations)
            (at ingress_class_annotation) f (at original_ingress_class_annotation ∙ oc),
        at j,
      )
      refl

-- The annotations after a restoration of the class, key by key.
lookup-restore_class_annotations :
    (j : Text) (d : Dict Text)
    → lookup j (restore_class_annotations d) ≡ (
        if original_ingress_class_annotation == j
        then none
        else if original_ingress_class_name_annotation == j
        then none
        else if ingress_disabled_annotation == j
        then none
        else if ingress_class_annotation == j
        then (if get original_ingress_class_annotation d == []
            then none
            else some (get original_ingress_class_annotation d))
        else lookup j d)
unfolding restore_class_annotations
lookup-restore_class_annotations j d =
    rw
      (
        lookup-delete j original_ingress_class_annotation,
        lookup-delete j original_ingress_class_name_annotation,
        lookup-delete j ingress_disabled_annotation,
        lookup-put_back j ingress_class_annotation,
      )
      refl

-- A value that is read as a text and put back where it is filled.
filled_again :
    (o : Option Text) (k : Text) (d : Dict Text)
    → lookup k d ≡ o
    → IsFilled o
    → (if get k d == [] then none else some (get k d)) ≡ o
filled_again none k d e f = rw (get_missing k d e) (unfold same in refl)
filled_again (some v) k d e f = rw (get_found k v d e, f) refl

class_name-IsFilled : (o : Option Text) → IsClassName o → IsFilled o
class_name-IsFilled none h = tt
class_name-IsFilled (some v) h = h.0

-- Five cases of a key, of which the last agrees with what the fourth says too.
decide :
    (a b c e : Bool) (l x y : Option Text)
    → (a ≡ true → l ≡ none)
    → (b ≡ true → l ≡ none)
    → (c ≡ true → l ≡ none)
    → (e ≡ true → l ≡ x)
    → (a ≡ false → b ≡ false → c ≡ false → e ≡ false → y ≡ l)
    → (if a then none else if b then none else if c then none else if e then x else y) ≡ l
decide true b c e l x y h1 h2 h3 h4 h5 = sym (h1 refl)
decide false true c e l x y h1 h2 h3 h4 h5 = sym (h2 refl)
decide false false true e l x y h1 h2 h3 h4 h5 = sym (h3 refl)
decide false false false true l x y h1 h2 h3 h4 h5 = sym (h4 refl)
decide false false false false l x y h1 h2 h3 h4 h5 = h5 refl refl refl refl

-- At a key that equals another one.
pub at_key :
    (j k : Text) (d : Dict Text) (o : Option Text)
    → lookup k d ≡ o
    → (k == j) ≡ true
    → lookup j d ≡ o
at_key j k d o h b = rw (← (same_iff k j).0 b) h

-- An unmarked ingress whose class is not empty and not the text of a true flag, and that is
-- disabled and then restored, has its class and is read like before at every annotation.
pub restored_ingress-disabled_ingress :
    (ingress : Ingress)
    → IsUnmarked ingress
    → ((restored_ingress true false (disabled_ingress ingress)).ingress_class_name
        ≡ ingress.ingress_class_name)
      × ReadsLike
          (restored_ingress true false (disabled_ingress ingress)).annotations
          ingress.annotations
unfolding restored_ingress
restored_ingress-disabled_ingress ingress (d, oc, ocn, c, f) = (
  (unfold restored_class_name in
      filled_again ingress.ingress_class_name original_ingress_class_name_annotation
        (disabled_ingress ingress).annotations
        (unfold same in
          lookup-disabled_ingress original_ingress_class_name_annotation ingress (d, oc, ocn, c, f))
        (class_name-IsFilled ingress.ingress_class_name c)),
  λ j.
      let at = lookup-disabled_ingress j ingress (d, oc, ocn, c, f) in
      lookup-restore_class_annotations j (disabled_ingress ingress).annotations
      ∙ decide (original_ingress_class_annotation == j)
          (original_ingress_class_name_annotation == j) (ingress_disabled_annotation == j)
          (ingress_class_annotation == j) (lookup j ingress.annotations) _ _
          (at_key j _ ingress.annotations none oc) (at_key j _ ingress.annotations none ocn)
          (at_key j _ ingress.annotations none d)
          (λ e.
            at_key j ingress_class_annotation ingress.annotations _ refl e
            ∙ sym (
                filled_again (lookup ingress_class_annotation ingress.annotations)
                  original_ingress_class_annotation (disabled_ingress ingress).annotations
                  (unfold same in
                    lookup-disabled_ingress original_ingress_class_annotation ingress
                      (d, oc, ocn, c, f))
                  f))
          (λ h1 h2 h3 h4. at ∙ rw (h1, h2, h3, h4) refl),
)
