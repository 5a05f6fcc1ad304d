-- ===== src/Translator/Hostname.antt =====
-- TransformHostname, CheckCertificateMatch and generateSafeSecretName of
-- internal/translator/translator.go.
pub mod Laws
pub mod Certificate
use ingress_operator.Prelude.{
  ℕ, ◌≡◌, refl, true, false, Bool, not, ◌||◌, ◌&&◌, List, [], ◌∷◌, ◌++◌, arith, ◌==◌, nat_eq, ltb,
  leb, if◌then◌else◌, length, take, is_empty,
}
use ingress_operator.Text.{
  Text, codes, text_eq, trim_right, trim_space, split, has_prefix, has_suffix, trim_suffix,
  replace_all, to_lower,
}
use ingress_operator.Translator.{Config}

is_alnum : ℕ → Bool
is_alnum c = (leb b'a' c && leb c b'z') || (leb b'A' c && leb c b'Z') || (leb b'0' c && leb c b'9')

-- The characters after the first one of a label: letters, digits and hyphens, the last no hyphen.
label_rest : Text → Bool
label_rest [] = true
label_rest (c ∷ []) = is_alnum c
label_rest (c ∷ d ∷ s) = (is_alnum c || c == b'-') && label_rest (d ∷ s)

valid_label : Text → Bool
valid_label [] = false
valid_label (c ∷ s) = is_alnum c && leb (length s) 62 && label_rest s

all_valid : List Text → Bool
all_valid [] = true
all_valid (l ∷ ls) = valid_label l && all_valid ls

-- isValidHostname: the regular expression takes labels of 1 to 63 characters between dots.
unfoldable pub is_valid_hostname : Text → Bool
unfolding is_alnum label_rest valid_label all_valid
is_valid_hostname hostname = all_valid (split hostname b'.')

-- The hostname that one rule makes of a hostname with the suffix `from`.
unfoldable pub new_host : Text → Text → Text → Text
new_host hostname from to =
    let prefix = trim_suffix (trim_suffix hostname from) (codes ".") in
    let joined = if is_empty prefix then to else prefix ++ (codes "." ++ to) in
    trim_suffix (replace_all joined (codes "..") (codes ".")) (codes ".")

-- The loop over the rules. The two lists have the same length.
unfoldable pub try_rules : Text → List Text → List Text → Text
try_rules hostname [] to_parts = hostname
try_rules hostname (f ∷ from_parts) [] = hostname
try_rules hostname (f ∷ from_parts) (u ∷ to_parts) =
    let from = trim_space f in
    let to = trim_space u in
    let rest = try_rules hostname from_parts to_parts in
    let made = new_host hostname from to in
    if from == [] || to == []
    then rest
    else if has_suffix hostname from && is_valid_hostname made
    then made
    else rest

unfoldable pub transform_hostname : Config → Text → Text
transform_hostname t hostname =
    let from_parts = split t.hostname_rewrite_from b',' in
    let to_parts = split t.hostname_rewrite_to b',' in
    if t.hostname_rewrite_from == [] || t.hostname_rewrite_to == []
    then hostname
    else if length from_parts == length to_parts
    then try_rules hostname from_parts to_parts
    else hostname

-- `host[2:]`
drop_two : Text → Text
drop_two [] = []
drop_two (c ∷ []) = []
drop_two (c ∷ d ∷ s) = s

host_matches : Text → Text → Bool
host_matches transformed_hostname host =
    host == transformed_hostname
    || (has_prefix host (codes "*.") && has_suffix transformed_hostname (drop_two host))

any_host : Text → List Text → Bool
any_host transformed_hostname [] = false
any_host transformed_hostname (host ∷ hosts) =
    host_matches transformed_hostname host || any_host transformed_hostname hosts

unfoldable pub check_certificate_match : Text → Text → List Text → Bool
unfolding drop_two host_matches any_host
check_certificate_match original_hostname transformed_hostname tls_hosts =
    original_hostname == transformed_hostname || any_host transformed_hostname tls_hosts

abbrev pub max_k8s_name_length : ℕ
max_k8s_name_length = 253

-- `fmt.Sprintf("automatic-%s-%s-tls", namespace, strings.ReplaceAll(hostname, ".", "-"))`
unfoldable pub automatic_secret_name : Text → Text → Text
automatic_secret_name namespace hostname =
    codes "automatic-"
    ++ (namespace ++ (codes "-" ++ (replace_all hostname (codes ".") (codes "-") ++ codes "-tls")))

unfoldable pub generate_safe_secret_name : Text → Text → Text
generate_safe_secret_name namespace hostname =
    let safe_name = to_lower (automatic_secret_name namespace hostname) in
    if ltb max_k8s_name_length (length safe_name)
    then trim_right (λ c. c == b'-') (take max_k8s_name_length safe_name)
    else safe_name
