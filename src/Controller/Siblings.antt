-- ===== src/Controller/Siblings.antt =====
-- The ingresses of one namespace that concern each other: canaries with their primaries, and those
-- that declare the same server directives on one host. From
-- internal/controller/ingress_controller.go and, for the directives, internal/utils/snippets.go.
pub mod Age
pub mod Suppressed
use ingress_operator.Prelude.{
  ℕ, ◌+◌, Bool, true, false, not, ◌&&◌, ◌||◌, Option, none, some, List, [], ◌∷◌, ◌++◌, ◌==◌, nat_eq,
  ltb, if◌then◌else◌, is_empty, keep, some_of, contains, length, drop,
}
use ingress_operator.Text.{Text, codes, text_eq, has_prefix}
use ingress_operator.Dict.{Dict, lookup}
use ingress_operator.Kube.{Ingress, IngressRule, HttpIngressPath}
use ingress_operator.Client.{Answer, ok, err}
use ingress_operator.Translator.{Config}
use ingress_operator.Translator.Hostname.{transform_hostname}
use ingress_operator.Translator.Canary.{is_canary}
use ingress_operator.Controller.{
  Reconciler, get_translator, class_of, matches_ingress_class_filter,
  matches_ingress_class_ignore_filter,
}

-- A host and a path, as one key: they are separated by a zero byte.
abbrev host_path_key : Text → Text → Text
host_path_key host path = host ++ (0 ∷ path)

path_keys : Text → List HttpIngressPath → List Text
path_keys host [] = []
path_keys host (path ∷ paths) = host_path_key host path.path ∷ path_keys host paths

-- The keys of an ingress.
unfoldable pub host_paths : List IngressRule → List Text
unfolding path_keys
host_paths [] = []
host_paths (rule ∷ rules) =
    let rest = host_paths rules in
    elim rule.http [ none ↦ rest | some paths ↦ path_keys rule.host paths ++ rest ]

-- sharesHostPath: the keys of the second ingress are looked up among those of the first.
unfoldable pub shares_host_path : Ingress → Ingress → Bool
unfolding host_paths
shares_host_path a b = some_of (λ key. contains (host_paths a.rules) key) (host_paths b.rules)

-- The order of names as Go compares them.
unfoldable pub text_lt : Text → Text → Bool
text_lt s [] = false
text_lt [] (d ∷ t) = true
text_lt (c ∷ s) (d ∷ t) = ltb c d || (c == d && text_lt s t)

-- isOlderIngress
unfoldable pub is_older_ingress : Ingress → Ingress → Bool
unfolding text_lt
is_older_ingress a b =
    if a.created == b.created then text_lt a.name b.name else ltb a.created b.created

-- transformedHostSet
unfoldable pub transformed_host_set : Config → List IngressRule → List Text
transformed_host_set t [] = []
transformed_host_set t (rule ∷ rules) =
    let rest = transformed_host_set t rules in
    if rule.host == [] then rest else transform_hostname t rule.host ∷ rest

-- transformedHostPathSet, with the host and the path of each key.
transformed_paths : Text → List HttpIngressPath → List (Text × Text)
transformed_paths host [] = []
transformed_paths host (path ∷ paths) = (host, path.path) ∷ transformed_paths host paths

unfoldable pub transformed_host_path_set : Config → List IngressRule → List (Text × Text)
unfolding transformed_paths
transformed_host_path_set t [] = []
transformed_host_path_set t (rule ∷ rules) =
    let rest = transformed_host_path_set t rules in
    let paths : List (Text × Text) = elim rule.http [
      | none ↦ rest
      | some ps ↦ transformed_paths (transform_hostname t rule.host) ps ++ rest
    ] in
    if rule.host == [] then rest else paths

-- sharesAnyHost
unfoldable pub shares_any_host : List Text → Config → Ingress → Bool
unfolding transformed_host_set
shares_any_host hosts t ingress = some_of (contains hosts) (transformed_host_set t ingress.rules)

has_pair : List (Text × Text) → Text × Text → Bool
has_pair pairs (host, path) =
    some_of (λ (p : Text × Text). host_path_key p.0 p.1 == host_path_key host path) pairs

first_pair : List (Text × Text) → List (Text × Text) → Text
unfolding has_pair
first_pair pairs [] = []
first_pair pairs ((host, path) ∷ others) =
    let rest = first_pair pairs others in
    if has_pair pairs (host, path) then host ++ (codes " " ++ path) else rest

-- firstSharedHostPath
unfoldable pub first_shared_host_path : List (Text × Text) → Config → Ingress → Text
unfolding first_pair
first_shared_host_path pairs t ingress =
    first_pair pairs (transformed_host_path_set t ingress.rules)

abbrev pub nginx_ingress_annotation_prefix : Text
nginx_ingress_annotation_prefix = codes "nginx.ingress.kubernetes.io/"

-- nginxServerOnlyDirectives
abbrev pub nginx_server_only_directives : List Text
nginx_server_only_directives = codes "ssl-ciphers" ∷ codes "ssl-prefer-server-ciphers" ∷ []

-- ServerOnlySnippetAnnotationKeys, in their order.
abbrev pub server_only_snippet_annotation_keys : List Text
server_only_snippet_annotation_keys =
    (nginx_ingress_annotation_prefix ++ codes "ssl-ciphers")
    ∷ (nginx_ingress_annotation_prefix ++ codes "ssl-prefer-server-ciphers")
    ∷ []

-- ServerOnlySnippetSuffix
unfoldable pub server_only_snippet_suffix : Text → Option Text
server_only_snippet_suffix key =
    let suffix = drop (length nginx_ingress_annotation_prefix) key in
    if has_prefix key nginx_ingress_annotation_prefix
      && contains nginx_server_only_directives suffix
    then some suffix
    else none

-- Whether an ingress has the annotation.
unfoldable pub declares : Ingress → Text → Bool
declares ingress key = elim (lookup key ingress.annotations) [ none ↦ false | some v ↦ true ]

suppress_suffix : List Text → Option Text → List Text
suppress_suffix suppress none = suppress
suppress_suffix suppress (some suffix) =
    if contains suppress suffix then suppress else suffix ∷ suppress

-- suppressServerOnlyConflicts, for the keys that are left.
unfoldable pub suppress_keys : Ingress → Ingress → List Text → List Text → List Text
unfolding suppress_suffix declares server_only_snippet_suffix
suppress_keys ingress sibling [] suppress = suppress
suppress_keys ingress sibling (key ∷ keys) suppress = suppress_keys ingress sibling keys (
    if declares ingress key && declares sibling key
    then suppress_suffix suppress (server_only_snippet_suffix key)
    else suppress)

module _ (glob : Text → Text → Option Bool) (r : Reconciler) where
  unfoldable pub is_in_scope : Ingress → Bool
  is_in_scope ingress =
      not (matches_ingress_class_ignore_filter glob r ingress)
      && matches_ingress_class_filter glob r ingress

  -- isConflictCandidate
  unfoldable pub is_conflict_candidate : Ingress → Ingress → Bool
  unfolding is_in_scope
  is_conflict_candidate sibling ingress =
      if sibling.name == ingress.name || is_canary sibling
      then false
      else if sibling.deleting
      then false
      else if not (is_in_scope sibling)
      then false
      else is_older_ingress sibling ingress

  -- The loop of detectSnippetConflicts: the suffixes to suppress, and the overlaps to warn of.
  unfoldable pub detect_among :
      Ingress → List Ingress → List Text → List Text → List Text × List Text
  unfolding is_conflict_candidate
  detect_among ingress [] suppress overlaps = (suppress, overlaps)
  detect_among ingress (sibling ∷ siblings) suppress overlaps =
      let t = get_translator r in
      let overlap = first_shared_host_path (transformed_host_path_set t ingress.rules) t sibling in
      let counts =
        is_conflict_candidate sibling ingress
        && shares_any_host (transformed_host_set t ingress.rules) t sibling in
      detect_among ingress siblings
        (if counts
          then suppress_keys ingress sibling server_only_snippet_annotation_keys suppress
          else suppress)
        (if counts && not (overlap == []) then overlap ∷ overlaps else overlaps)

  -- detectSnippetConflicts
  unfoldable pub detect_snippet_conflicts :
      (Text → Answer (List Ingress)) → Ingress → List Text × List Text
  unfolding detect_among
  detect_snippet_conflicts list_ingresses ingress =
      let found : List Text × List Text = elim (list_ingresses ingress.namespace) [
        | err e ↦ ([], [])
        | ok siblings ↦ detect_among ingress siblings [] []
      ] in
      if is_empty ingress.annotations
      then ([], [])
      else if is_empty (transformed_host_set (get_translator r) ingress.rules)
      then ([], [])
      else found

  -- Whether a sibling is a canary of the primary.
  unfoldable pub is_canary_of : Ingress → Ingress → Bool
  unfolding is_in_scope
  is_canary_of primary sibling =
      not (sibling.name == primary.name || not (is_canary sibling))
      && not sibling.deleting
      && is_in_scope sibling
      && class_of r.ingress_class_empty sibling == class_of r.ingress_class_empty primary
      && shares_host_path primary sibling

  -- findCanarySiblings
  unfoldable pub find_canary_siblings : (Text → Answer (List Ingress)) → Ingress → List Ingress
  unfolding is_canary_of
  find_canary_siblings list_ingresses primary = elim (list_ingresses primary.namespace) [
    | err e ↦ []
    | ok siblings ↦ keep (is_canary_of primary) siblings
  ]

  -- Whether reconcileCanaryPrimaries reconciles a sibling for the canary.
  unfoldable pub is_primary_of : Ingress → Ingress → Bool
  is_primary_of canary primary =
      not (primary.name == canary.name || is_canary primary)
      && not primary.deleting
      && class_of r.ingress_class_empty primary == class_of r.ingress_class_empty canary
      && shares_host_path primary canary
