-- ===== src/Reenabler.antt =====
-- The re-enabler, cmd/reenabler/main.go: it restores what the reconciler of ingresses saved when it
-- disabled an ingress, or deletes the disabled ones.
pub mod Restored
pub mod ExternalDns
use ingress_operator.Prelude.{
  ℕ, zero, suc, ◌++◌, Bool, true, false, not, ◌&&◌, ◌||◌, Option, none, some, List, [], ◌∷◌, ◌==◌,
  if◌then◌else◌, is_empty, some_of,
}
use ingress_operator.Text.{Text, codes, text_eq}
use ingress_operator.Dict.{Dict, lookup, get, insert, delete}
use ingress_operator.Values.{parse_comma_separated_list}
use ingress_operator.Kube.{Ingress, HttpRoute, Gateway, ParentRef}
use ingress_operator.Client.{
  ApiError, not_found, other, conflict, already_exists, no_match, described, Failure, plain,
  wrapped, Answer, ok, err, Client, Outcome, done, fails, written,
}
use ingress_operator.Resource.{is_managed_by_us_for_ingress, is_managed_by_us_with_ingress}
use ingress_operator.Translator.{ingress_class_annotation, qualified}
use ingress_operator.Controller.{
  ingress_disabled_annotation, ignore_ingress_annotation, original_ingress_class_annotation,
  original_ingress_class_name_annotation, external_dns_ingress_hostname_source,
  external_dns_hostname_annotation, original_external_dns_hostname,
  original_external_dns_ingress_hostname_source, external_dns_hostname_source_annotation_only,
  disabled_ingress_class_name, ingress_disabled_reason_normal, ingress_disabled_reason_external_dns,
  true_text, text_of,
}

-- Whether a map has the key.
unfoldable pub has : Text → Dict Text → Bool
has k d = elim (lookup k d) [ none ↦ false | some v ↦ true ]

-- `d[k] = v` for a filled value, and else `delete(d, k)`.
unfoldable pub put_back : Text → Text → Dict Text → Dict Text
put_back k v d = if v == [] then delete k d else insert k v d

-- isDisabledIngress
unfoldable pub is_disabled_ingress : Ingress → Bool
is_disabled_ingress ingress =
    not (get ingress_disabled_annotation ingress.annotations == [])
    && (text_of ingress.ingress_class_name == disabled_ingress_class_name
        || get ingress_class_annotation ingress.annotations == disabled_ingress_class_name)

-- needsExternalDNSRestore
unfoldable pub needs_external_dns_restore : Ingress → Bool
unfolding has
needs_external_dns_restore ingress =
    has original_external_dns_hostname ingress.annotations
    || has original_external_dns_ingress_hostname_source ingress.annotations
    || has external_dns_ingress_hostname_source ingress.annotations

-- shouldRestoreIngress
unfoldable pub should_restore_ingress : Ingress → Bool → Bool → Bool
should_restore_ingress ingress disabled restore_external_dns =
    if disabled
    then true
    else restore_external_dns
      && (get ingress_disabled_annotation ingress.annotations
            == ingress_disabled_reason_external_dns
          || needs_external_dns_restore ingress)

-- shouldDeleteIngress
unfoldable pub should_delete_ingress : Ingress → Bool
should_delete_ingress ingress =
    let value = get ingress_disabled_annotation ingress.annotations in
    if value == ingress_disabled_reason_normal
    then is_disabled_ingress ingress
    else value == ingress_disabled_reason_external_dns
      && not (get external_dns_ingress_hostname_source ingress.annotations == [])
      && (has original_external_dns_hostname ingress.annotations
          || has original_external_dns_ingress_hostname_source ingress.annotations)

-- The class name that restoreIngressState sets.
unfoldable pub restored_class_name : Dict Text → Option Text
restored_class_name annotations =
    let name = get original_ingress_class_name_annotation annotations in
    if name == [] then none else some name

-- The annotations after the class is restored.
unfoldable pub restore_class_annotations : Dict Text → Dict Text
unfolding put_back
restore_class_annotations annotations = delete original_ingress_class_annotation (
    delete original_ingress_class_name_annotation (
      delete ingress_disabled_annotation (
        put_back ingress_class_annotation (get original_ingress_class_annotation annotations)
          annotations)))

unfoldable pub hostname_restored : Dict Text → Option Text → Dict Text
unfolding put_back
hostname_restored annotations none = annotations
hostname_restored annotations (some hostname) =
    delete original_external_dns_hostname
      (put_back external_dns_hostname_annotation hostname annotations)

unfoldable pub restore_hostname : Dict Text → Dict Text
unfolding hostname_restored
restore_hostname annotations =
    hostname_restored annotations (lookup original_external_dns_hostname annotations)

unfoldable pub source_restored : Dict Text → Option Text → Dict Text
unfolding put_back
source_restored annotations none = delete external_dns_ingress_hostname_source annotations
source_restored annotations (some source) =
    delete original_external_dns_ingress_hostname_source
      (put_back external_dns_ingress_hostname_source source annotations)

unfoldable pub restore_source : Dict Text → Dict Text
unfolding source_restored
restore_source annotations =
    source_restored annotations (lookup original_external_dns_ingress_hostname_source annotations)

unfoldable pub unmark_external_dns : Dict Text → Dict Text
unmark_external_dns annotations =
    if get ingress_disabled_annotation annotations == ingress_disabled_reason_external_dns
    then delete ingress_disabled_annotation annotations
    else annotations

unfoldable pub restore_external_dns_annotations : Dict Text → Dict Text
unfolding restore_hostname restore_source unmark_external_dns
restore_external_dns_annotations annotations =
    unmark_external_dns (restore_source (restore_hostname annotations))

-- The change of restoreIngressState, and whether it is one.
unfoldable pub restored_ingress : Bool → Bool → Ingress → Ingress
unfolding restored_class_name restore_class_annotations restore_external_dns_annotations
restored_ingress restore_class restore_external_dns ingress =
    let with_class : Ingress = record ingress {
      ingress_class_name = restored_class_name ingress.annotations;
      annotations = restore_class_annotations ingress.annotations;
    } in
    let restored : Ingress = if restore_class then with_class else ingress in
    let annotations : Dict Text =
      if restore_external_dns
      then restore_external_dns_annotations restored.annotations
      else restored.annotations in
    record restored { annotations = annotations }

unfoldable pub is_restored_modified : Bool → Bool → Ingress → Bool
is_restored_modified restore_class restore_external_dns ingress =
    restore_class
    || (restore_external_dns
        && (needs_external_dns_restore ingress
            || get ingress_disabled_annotation ingress.annotations
              == ingress_disabled_reason_external_dns))

-- The annotations of a derived object, for applyExternalDNSDisableAnnotations: the new ones, whether
-- they are modified, and the warning.
unfoldable pub apply_external_dns_disable_annotations :
    Dict Text → Text → Text → Dict Text × Bool × Bool
apply_external_dns_disable_annotations annotations source_key original_source_key =
    let set = insert source_key external_dns_hostname_source_annotation_only annotations in
    let hostname = get external_dns_hostname_annotation set in
    let save = not (hostname == []) && not (has original_external_dns_hostname set) in
    let saved = if save then insert original_external_dns_hostname hostname set else set in
    let with_source : Dict Text = elim (lookup source_key annotations) [
      | none ↦ saved
      | some source ↦
          if has original_source_key saved then saved else insert original_source_key source saved
    ] in
    if get source_key annotations == external_dns_hostname_source_annotation_only
    then (annotations, false, false)
    else (with_source, true, save)

-- parentRefKey
unfoldable pub parent_ref_key : Text → ParentRef → Option Text
parent_ref_key default_namespace ref =
    if ref.name == []
    then none
    else some
        (qualified (if ref.namespace == [] then default_namespace else ref.namespace) ref.name)

-- The ingresses whose name matches one of the patterns, or the error at a bad one.
name_matches : (Text → Text → Option Bool) → List Text → Text → Option Bool
name_matches glob [] name = some false
name_matches glob (item ∷ patterns) name =
    let rest = name_matches glob patterns name in
    elim (glob item name) [ none ↦ none | some true ↦ some true | some false ↦ rest ]

filter_by : (Text → Text → Option Bool) → List Text → List Ingress → Option (List Ingress)
unfolding name_matches
filter_by glob patterns [] = some []
filter_by glob patterns (ingress ∷ ingresses) =
    let rest = filter_by glob patterns ingresses in
    elim (name_matches glob patterns ingress.name) [
      | none ↦ none
      | some false ↦ rest
      | some true ↦ elim rest [ none ↦ none | some matches ↦ some (ingress ∷ matches) ]
    ]

-- filterIngressesByName: `none` is the error of a bad pattern.
unfoldable pub filter_ingresses_by_name :
    (Text → Text → Option Bool) → List Ingress → Text → Option (List Ingress)
unfolding filter_by
filter_ingresses_by_name glob ingresses pattern_text =
    let patterns = parse_comma_separated_list pattern_text in
    if is_empty patterns then some ingresses else filter_by glob patterns ingresses

module _ {State : Type 0} (ingresses : Client State Ingress) where
  retry_result : (State → Outcome State) → State → Answer State → Outcome State
  unfolding done fails
  retry_result next s (ok s') = done s'
  retry_result next s (err (other conflict)) = next s
  retry_result next s (err e) = fails s (plain e)

  retry_changed : (State → Outcome State) → State → Option Ingress → Outcome State
  unfolding done retry_result
  retry_changed next s none = done s
  retry_changed next s (some updated) = retry_result next s (ingresses.update_object s updated)

  retry_found :
      (Ingress → Option Ingress) → (State → Outcome State) → State → Answer Ingress → Outcome State
  unfolding fails retry_changed
  retry_found mutate next s (err e) = fails s (plain e)
  retry_found mutate next s (ok current) = retry_changed next s (mutate current)

  -- The attempts that are left. None is left only after a conflict, which is the error then. The
  -- change is `none` where nothing is modified.
  unfoldable pub retry : (Ingress → Option Ingress) → Text → Text → ℕ → State → Outcome State
  unfolding fails retry_found
  retry mutate namespace name zero s = fails s (plain (other conflict))
  retry mutate namespace name (suc n) s =
      retry_found mutate (retry mutate namespace name n) s (ingresses.get_object s namespace name)

  -- updateIngressWithRetry
  unfoldable pub update_ingress_with_retry :
      (Ingress → Option Ingress) → Ingress → State → Outcome State
  unfolding retry
  update_ingress_with_retry mutate ingress = retry mutate ingress.namespace ingress.name 3

  -- The change of restoreIngressState.
  abbrev pub restore_change : Bool → Bool → Ingress → Option Ingress
  restore_change restore_class restore_external_dns current =
      if is_restored_modified restore_class restore_external_dns current
      then some (restored_ingress restore_class restore_external_dns current)
      else none

  -- restoreIngressState
  unfoldable pub restore_ingress_state : Bool → Bool → Ingress → State → Outcome State
  restore_ingress_state restore_class restore_external_dns =
      update_ingress_with_retry (restore_change restore_class restore_external_dns)

  -- markIngressDisabled
  unfoldable pub mark_ingress_disabled : Bool → Ingress → State → Outcome State
  mark_ingress_disabled use_normal = update_ingress_with_retry λ (current : Ingress).
      some (record current {
        annotations =
            insert ingress_disabled_annotation
              (if use_normal
                then ingress_disabled_reason_normal
                else ingress_disabled_reason_external_dns)
              current.annotations;
      })

  -- markIngressIgnored
  unfoldable pub mark_ingress_ignored : Ingress → State → Outcome State
  mark_ingress_ignored = update_ingress_with_retry λ (current : Ingress). some (record current {
    annotations = insert ignore_ingress_annotation true_text current.annotations;
  })

-- Why an ingress is not deleted.
pub data Eligibility : Type 0 where
  eligible missing_disabled unmet_criteria missing_both missing_route missing_gateway : Eligibility

module _ {State : Type 0} (get_routes : State → Text → Text → Answer (List HttpRoute))
    (list_gateways : State → Answer (List Gateway)) where
  gateways_found : Ingress → Answer (List Gateway) → Answer (Bool × Bool)
  gateways_found ingress (err e) = err e
  gateways_found ingress (ok gateways) = ok (
    true,
    some_of
        (λ (gateway : Gateway).
          is_managed_by_us_with_ingress gateway.annotations ingress.namespace ingress.name)
        gateways,
  )

  routes_found : State → Ingress → Answer (List HttpRoute) → Answer (Bool × Bool)
  unfolding gateways_found
  routes_found s ingress (err e) = err e
  routes_found s ingress (ok routes) =
      if some_of
        (λ (route : HttpRoute).
          is_managed_by_us_for_ingress route.annotations ingress.namespace ingress.name)
        routes
      then gateways_found ingress (list_gateways s)
      else ok (false, false)

  -- hasManagedResources: whether there is an HTTPRoute, and a Gateway.
  unfoldable pub has_managed_resources : State → Ingress → Answer (Bool × Bool)
  unfolding routes_found
  has_managed_resources s ingress =
      routes_found s ingress (get_routes s ingress.namespace ingress.name)

  eligibility_of : Answer (Bool × Bool) → Answer Eligibility
  eligibility_of (err e) = err e
  eligibility_of (ok (true, true)) = ok eligible
  eligibility_of (ok (true, false)) = ok missing_gateway
  eligibility_of (ok (false, true)) = ok missing_route
  eligibility_of (ok (false, false)) = ok missing_both

  -- checkDeleteEligibility
  unfoldable pub check_delete_eligibility : State → Ingress → Answer Eligibility
  unfolding eligibility_of
  check_delete_eligibility s ingress =
      if get ingress_disabled_annotation ingress.annotations == []
      then ok missing_disabled
      else if not (should_delete_ingress ingress)
      then ok unmet_criteria
      else eligibility_of (has_managed_resources s ingress)

  delete_result : State → Answer State → Outcome State
  unfolding done fails
  delete_result s (ok s') = done s'
  delete_result s (err e) = fails s (plain e)

  delete_eligible : Client State Ingress → State → Ingress → Answer Eligibility → Outcome State
  unfolding done fails delete_result
  delete_eligible ingresses s ingress (err e) = fails s (plain e)
  delete_eligible ingresses s ingress (ok eligible) =
      delete_result s (ingresses.delete_object s ingress)
  delete_eligible ingresses s ingress (ok reason) = done s

  -- deleteIngressIfEligible
  unfoldable pub delete_ingress_if_eligible : Client State Ingress → State → Ingress → Outcome State
  unfolding delete_eligible
  delete_ingress_if_eligible ingresses s ingress =
      delete_eligible ingresses s ingress (check_delete_eligibility s ingress)

  -- preflightDelete: the first ingress that is not eligible, or the first error, ends it.
  unfoldable pub preflight_delete : State → List Ingress → Answer (Option (Ingress × Eligibility))
  preflight_delete s [] = ok none
  preflight_delete s (ingress ∷ ingresses) =
      let rest = preflight_delete s ingresses in
      elim (check_delete_eligibility s ingress) [
        | err e ↦ err e
        | ok eligible ↦ rest
        | ok reason ↦ ok (some (ingress, reason))
      ]
