-- ===== src/Reenabler/ExternalDns.antt =====
-- The external-dns annotations that were changed are restored as they were.
use ingress_operator.Prelude.{
  ◌≡◌, refl, sym, Bool, true, false, Option, none, some, [], ◌==◌, if◌then◌else◌,
}
use ingress_operator.Text.{Text, text_eq}
use ingress_operator.Dict.{Dict, lookup}
use ingress_operator.Controller.{
  ingress_disabled_annotation, external_dns_ingress_hostname_source,
  external_dns_hostname_annotation, original_external_dns_hostname,
  original_external_dns_ingress_hostname_source, external_dns_hostname_source_annotation_only,
}
use ingress_operator.Reenabler.Restored.{IsFilled}

-- The source of hostnames is missing, or a filled one that is not the one that is set.
abbrev pub IsSource : Option Text → Type 0
IsSource none = Unit
IsSource (some v) =
    ((v == []) ≡ false) × ((v == external_dns_hostname_source_annotation_only) ≡ false)

-- Annotations without a mark of the reconciler, and without empty values of external-dns.
abbrev pub IsUntouched : Dict Text → Type 0
IsUntouched d =
    (lookup ingress_disabled_annotation d ≡ none)
    × (lookup original_external_dns_hostname d ≡ none)
    × (lookup original_external_dns_ingress_hostname_source d ≡ none)
    × IsFilled (lookup external_dns_hostname_annotation d)
    × IsSource (lookup external_dns_ingress_hostname_source d)

-- Six cases of a key.
decide :
    (a b c e g : Bool) (l x y z : Option Text)
    → (a ≡ true → l ≡ none)
    → (b ≡ true → l ≡ none)
    → (c ≡ true → l ≡ x)
    → (e ≡ true → l ≡ none)
    → (g ≡ true → l ≡ y)
    → (a ≡ false → b ≡ false → c ≡ false → e ≡ false → z ≡ l)
    → (if a
        then none
        else if b
        then none
        else if c
        then x
        else if e
        then none
        else if g
        then y
        else z)
      ≡ l
decide true b c e g l x y z h1 h2 h3 h4 h5 h6 = sym (h1 refl)
decide false true c e g l x y z h1 h2 h3 h4 h5 h6 = sym (h2 refl)
decide false false true e g l x y z h1 h2 h3 h4 h5 h6 = sym (h3 refl)
decide false false false true g l x y z h1 h2 h3 h4 h5 h6 = sym (h4 refl)
decide false false false false true l x y z h1 h2 h3 h4 h5 h6 = sym (h5 refl)
decide false false false false false l x y z h1 h2 h3 h4 h5 h6 = h6 refl refl refl refl
