-- ===== src/Translator/Headers.antt =====
-- The header modifiers of internal/translator/translator.go: parseHeaderNameList,
-- parseHeaderNameValueList, buildHeaderModifierFilters and collectFilters.
use ingress_operator.Prelude.{
  Bool, ◌&&◌, Option, none, some, List, [], ◌∷◌, ◌++◌, ◌==◌, if◌then◌else◌, is_empty,
}
use ingress_operator.Text.{Text, codes, text_eq, trim_space, split_pair, tokens}
use ingress_operator.Dict.{Dict, get}
use ingress_operator.Kube.{
  Header, HeaderFilter, RouteFilter, request_header_modifier, response_header_modifier,
}
use ingress_operator.Values.{unique_by, unique}

abbrev pub request_header_add_annotation : Text
request_header_add_annotation = codes "ingress-doperator.fiction.si/request-header-add"

abbrev pub request_header_set_annotation : Text
request_header_set_annotation = codes "ingress-doperator.fiction.si/request-header-set"

abbrev pub request_header_remove_annotation : Text
request_header_remove_annotation = codes "ingress-doperator.fiction.si/request-header-remove"

abbrev pub response_header_add_annotation : Text
response_header_add_annotation = codes "ingress-doperator.fiction.si/response-header-add"

abbrev pub response_header_set_annotation : Text
response_header_set_annotation = codes "ingress-doperator.fiction.si/response-header-set"

abbrev pub response_header_remove_annotation : Text
response_header_remove_annotation = codes "ingress-doperator.fiction.si/response-header-remove"

-- parseHeaderNameList
unfoldable pub parse_header_name_list : Text → List Text
parse_header_name_list raw = if trim_space raw == [] then [] else unique [] (tokens b',' raw)

-- The header of one entry `name=value`, if it is one.
header_of : Option (Text × Text) → Option Header
header_of none = none
header_of (some (k, v)) =
    if trim_space k == [] then none else some (record { name = trim_space k; value = trim_space v })

unfoldable pub parse_headers : List Text → List Header
unfolding header_of
parse_headers [] = []
parse_headers (entry ∷ entries) = elim (header_of (split_pair entry b'=')) [
  | none ↦ parse_headers entries
  | some h ↦ h ∷ parse_headers entries
]

-- The key of the map `seen`: name, a zero character, value.
unfoldable pub header_key : Header → Text
header_key h = h.name ++ (0 ∷ h.value)

-- parseHeaderNameValueList
unfoldable pub parse_header_name_value_list : Text → List Header
parse_header_name_value_list raw =
    if trim_space raw == [] then [] else unique_by header_key [] (parse_headers (tokens b',' raw))

header_filter : Dict Text → Text → Text → Text → HeaderFilter
header_filter annotations add set remove = record {
  add = parse_header_name_value_list (get add annotations);
  set = parse_header_name_value_list (get set annotations);
  remove = parse_header_name_list (get remove annotations);
}

is_empty_filter : HeaderFilter → Bool
is_empty_filter f = is_empty f.add && is_empty f.set && is_empty f.remove

-- buildHeaderModifierFilters
unfoldable pub build_header_modifier_filters : Dict Text → Option RouteFilter × Option RouteFilter
unfolding header_filter is_empty_filter
build_header_modifier_filters annotations =
    let request =
      header_filter annotations request_header_add_annotation request_header_set_annotation
        request_header_remove_annotation in
    let response =
      header_filter annotations response_header_add_annotation response_header_set_annotation
        response_header_remove_annotation in
    (
      if is_empty_filter request then none else some (request_header_modifier request),
      if is_empty_filter response then none else some (response_header_modifier response),
    )

-- collectFilters
unfoldable pub collect_filters : Option RouteFilter → Option RouteFilter → List RouteFilter
collect_filters none none = []
collect_filters none (some response) = response ∷ []
collect_filters (some request) none = request ∷ []
collect_filters (some request) (some response) = request ∷ response ∷ []
