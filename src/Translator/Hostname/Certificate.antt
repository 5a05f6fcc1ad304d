-- ===== src/Translator/Hostname/Certificate.antt =====
-- CheckCertificateMatch, and the names of the secrets for hostnames that no certificate matches.
use mathlib.Core.List.{map-append}
use ingress_operator.Prelude.{
  ℕ, ◌≡◌, ◌≤◌, refl, true, false, false≢true, Bool, List, [], ◌∷◌, ◌++◌, arith, ◌==◌, nat_eq, ltb,
  ◌↔◌, length, take, Bool-cases, inl, inr, ◌⊎◌, append_assoc, contains, length-take_le,
}
use ingress_operator.Text.{
  Text, codes, text_eq, same, same_iff, trim_right, has_prefix, has_suffix, to_lower, replace_all,
}
use ingress_operator.Translator.Hostname.{
  check_certificate_match, host_matches, any_host, drop_two, automatic_secret_name,
  generate_safe_secret_name, max_k8s_name_length,
}

-- A certificate with a host `*.d` for a suffix `d` of the hostname.
abbrev pub WildcardFor : Text → List Text → Type 0
WildcardFor hostname hosts =
    (d : Text) × (contains hosts (codes "*." ++ d) ≡ true) × (has_suffix hostname d ≡ true)

wildcard_host :
    (host : Text) → has_prefix host (codes "*.") ≡ true → host ≡ codes "*." ++ drop_two host
unfolding has_prefix drop_two
wildcard_host [] h = ground arith
wildcard_host (c ∷ []) h = ground arith
wildcard_host (c ∷ d ∷ s) h = ground arith

module _ (hostname : Text) where
  any_host_sound :
      (hosts : List Text)
      → any_host hostname hosts ≡ true
      → (contains hosts hostname ≡ true) ⊎ WildcardFor hostname hosts
  unfolding any_host host_matches contains
  any_host_sound [] h = absurd (false≢true h)
  any_host_sound (host ∷ hosts) h = elim (Bool-cases (host == hostname)) [
    | inl e ↦ inl (rw e)
    | inr e ↦ elim (Bool-cases (any_host hostname hosts)) [
      | inl k ↦ elim (any_host_sound hosts k) [
        | inl m ↦ inl (ground (arith, m))
        | inr (d, m, u) ↦ inr (d, ground (arith, m), u)
      ]
      | inr k ↦ inr (
        drop_two host,
        ground (arith, wildcard_host host, same_iff host (codes "*." ++ drop_two host), h, e, k),
        ground (arith, h, e, k),
      )
    ]
  ]

  any_host-exact :
      (hosts : List Text) → contains hosts hostname ≡ true → any_host hostname hosts ≡ true
  unfolding any_host host_matches contains
  any_host-exact [] h = h
  any_host-exact (host ∷ hosts) h = ground (arith, any_host-exact hosts)

  any_host-wildcard :
      (d : Text) (hosts : List Text)
      → contains hosts (codes "*." ++ d) ≡ true
      → has_suffix hostname d ≡ true
      → any_host hostname hosts ≡ true
  unfolding any_host host_matches contains drop_two has_prefix
  any_host-wildcard d [] h k = h
  any_host-wildcard d (host ∷ hosts) h k = elim (Bool-cases (host == codes "*." ++ d)) [
    | inl e ↦ rw ((same_iff host (codes "*." ++ d)).0 e) (ground (arith, k))
    | inr e ↦ ground (arith, any_host-wildcard d hosts, h, e, k)
  ]

-- check_certificate_match accepts a transformed hostname exactly if it is the original one, or
-- one of the hosts, or ends in what stands behind `*.` in one of them.
pub check_certificate_match_iff :
    (original transformed : Text) (hosts : List Text)
    → (check_certificate_match original transformed hosts ≡ true) ↔ (
        (original ≡ transformed)
        ⊎ (contains hosts transformed ≡ true)
        ⊎ WildcardFor transformed hosts)
unfolding check_certificate_match
check_certificate_match_iff original transformed hosts = (
  λ h. elim (Bool-cases (original == transformed)) [
    | inl e ↦ inl ((same_iff original transformed).0 e)
    | inr e ↦ elim (any_host_sound transformed hosts (rw e at h)) [
      | inl m ↦ inr (inl m)
      | inr w ↦ inr (inr w)
    ]
  ],
  λ h. elim h [
    | inl e ↦ ground (arith, same_iff original transformed, e)
    | inr (inl m) ↦ rw (any_host-exact transformed hosts m) (ground arith)
    | inr (inr (d, m, u)) ↦ rw (any_host-wildcard transformed d hosts m u) (ground arith)
  ],
)

dash_end : (p : Text) (c : ℕ) → has_suffix (p ++ (c ∷ [])) (codes "-") ≡ (c == b'-')
unfolding has_suffix same
dash_end [] c = ground arith
dash_end (d ∷ []) c = ground (arith, dash_end [] c)
dash_end (d ∷ e ∷ p) c = ground (arith, dash_end (e ∷ p) c)

trimmed_end : (s : Text) → has_suffix (trim_right (λ c. c == b'-') s) (codes "-") ≡ false
unfolding has_suffix same trim_right
trimmed_end [] = refl
trimmed_end (c ∷ s) = ground (arith, trimmed_end s)

length-trim_right_le : (p : ℕ → Bool) (s : Text) → length (trim_right p s) ≤ length s
unfolding trim_right
length-trim_right_le p [] = omega arith
length-trim_right_le p (c ∷ s) = ground (arith, length-trim_right_le p s)

automatic_front : Text → Text → Text
automatic_front namespace hostname =
    codes "automatic-"
    ++ (namespace ++ (codes "-" ++ (replace_all hostname (codes ".") (codes "-") ++ codes "-tl")))

automatic_secret_name_shape :
    (namespace hostname : Text)
    → automatic_secret_name namespace hostname ≡ automatic_front namespace hostname ++ codes "s"
unfolding automatic_secret_name automatic_front
automatic_secret_name_shape namespace hostname = simp append_assoc

safe_end :
    (namespace hostname : Text)
    → has_suffix (to_lower (automatic_secret_name namespace hostname)) (codes "-") ≡ false
unfolding to_lower
safe_end namespace hostname =
    rw (automatic_secret_name_shape namespace hostname, map-append, dash_end) (ground arith)

-- A name that generate_safe_secret_name makes is no longer than the limit of Kubernetes, and does
-- not end in a dash.
pub generate_safe_secret_name_bounds :
    (namespace hostname : Text)
    → (length (generate_safe_secret_name namespace hostname) ≤ max_k8s_name_length)
      × (has_suffix (generate_safe_secret_name namespace hostname) (codes "-") ≡ false)
unfolding generate_safe_secret_name
generate_safe_secret_name_bounds namespace hostname =
    let name = to_lower (automatic_secret_name namespace hostname) in
    let cut = take max_k8s_name_length name in
    elim (Bool-cases (ltb max_k8s_name_length (length name))) [
      | inl e ↦ rw e (
        omega (
          arith,
          length-trim_right_le (λ c. c == b'-') cut,
          length-take_le max_k8s_name_length name,
        ),
        trimmed_end cut,
      )
      | inr e ↦ rw e (ground (arith, e), safe_end namespace hostname)
    ]
