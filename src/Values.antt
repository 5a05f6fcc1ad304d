-- ===== src/Values.antt =====
-- Lists of values kept in one text: internal/utils/strings.go, internal/utils/slice.go,
-- splitSources of internal/utils/resource.go, and the merging of such texts in
-- internal/translator/gateway_utils.go and deduplicateAndJoin of internal/translator/translator.go.
pub mod Unique
pub mod Comma
pub mod Merge
pub mod Mismatch
use ingress_operator.Prelude.{
  ◌≡◌, refl, true, false, Bool, not, ◌||◌, ◌&&◌, Option, none, some, List, [], ◌∷◌, ◌++◌, map, ◌==◌,
  if◌then◌else◌, contains, keep, is_empty, some_of,
}
use ingress_operator.Text.{Text, codes, text_eq, trim_space, split, join, tokens, has_prefix}
use ingress_operator.Dict.{Dict, keys, insert, MapOrder}

-- The loop with a map `seen`: an element is taken if its key is new.
module _ {ℓ} {A : Type ℓ} (key : A → Text) where
  unfoldable pub unique_by : List Text → List A → List A
  unique_by seen [] = []
  unique_by seen (x ∷ xs) =
      let skip = unique_by seen xs in
      let take = x ∷ unique_by (key x ∷ seen) xs in if contains seen (key x) then skip else take

abbrev pub unique : List Text → List Text → List Text
unique = unique_by (λ t. t)

-- ParseCommaSeparatedList
unfoldable pub parse_comma_separated_list : Text → List Text
parse_comma_separated_list raw = if trim_space raw == [] then [] else unique [] (tokens b',' raw)

-- ContainsString
unfoldable pub contains_string : List Text → Text → Bool
contains_string [] s = false
contains_string (item ∷ slice) s = if item == s then true else contains_string slice s

-- RemoveString
unfoldable pub remove_string : List Text → Text → List Text
remove_string [] s = []
remove_string (item ∷ slice) s =
    let rest = remove_string slice s in if item == s then rest else item ∷ rest

-- splitSources
unfoldable pub split_sources : Text → List Text
split_sources sources = tokens b',' sources

-- MergeAnnotationValues. The first two loops of the source fill a map that it does not read.
unfoldable pub merge_annotation_values : Text → Text → Text
merge_annotation_values existing desired =
    if existing == []
    then desired
    else if desired == []
    then existing
    else let values = unique [] (tokens b',' existing) in
      join (values ++ unique values (tokens b',' desired)) (codes ",")

-- A set, as the map that the source fills: `valuesMap[v] = true` for each value.
unfoldable pub add_all : List Text → Dict Bool → Dict Bool
add_all [] set = set
add_all (v ∷ vs) set = add_all vs (insert v true set)

-- MergeCertificateMismatchAnnotation: the values are ranged over in the order of the map.
unfoldable pub merge_certificate_mismatch_annotation : MapOrder → Text → Text → Text
merge_certificate_mismatch_annotation order existing desired =
    if existing == []
    then desired
    else if desired == []
    then existing
    else let values_map = add_all (tokens b';' desired) (add_all (tokens b';' existing) []) in
      join (keys (order.arrange Bool values_map)) (codes "; ")

-- The prefix of an entry for a hostname that was transformed.
unfoldable pub mismatch_prefix : Text × Text → Text
mismatch_prefix (original, transformed) = original ++ (codes "->" ++ (transformed ++ codes ":"))

-- RemoveCertMismatchEntries
unfoldable pub remove_cert_mismatch_entries : Text → Dict Text → Text
remove_cert_mismatch_entries cert_mismatch hostname_mappings =
    if cert_mismatch == []
    then []
    else join
        (keep (λ entry. not (some_of (λ m. has_prefix entry (mismatch_prefix m)) hostname_mappings))
          (tokens b';' cert_mismatch))
        (codes "; ")

-- deduplicateAndJoin
unfoldable pub deduplicate_and_join : List Text → Text
deduplicate_and_join [] = []
deduplicate_and_join (v ∷ []) = v
deduplicate_and_join (v ∷ w ∷ vs) =
    join (unique [] (keep (λ t. not (is_empty t)) (v ∷ w ∷ vs))) (codes ",")
