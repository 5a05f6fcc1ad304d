-- ===== src/Controller/Disable.antt =====
-- What the reconciler does to an ingress that it has translated: disableIngress,
-- disableExternalDNS and removeIngress of internal/controller/ingress_controller.go.
use ingress_operator.Prelude.{
  ℕ, zero, suc, Bool, true, false, not, ◌&&◌, ◌||◌, Option, none, some, [], ◌==◌, if◌then◌else◌,
  is_empty,
}
use ingress_operator.Text.{Text, codes, text_eq}
use ingress_operator.Dict.{Dict, lookup, get, insert}
use ingress_operator.Kube.{Ingress, IngressClass}
use ingress_operator.Client.{
  not_found, other, conflict, already_exists, Failure, plain, wrapped, Answer, ok, err, Client,
  Outcome, done, fails, written,
}
use ingress_operator.Translator.{ingress_class_annotation}
use ingress_operator.Controller.{
  ingress_disabled_annotation, ingress_removed_annotation, ignore_ingress_annotation,
  original_ingress_class_annotation, original_ingress_class_name_annotation,
  external_dns_ingress_hostname_source, external_dns_hostname_annotation,
  original_external_dns_hostname, original_external_dns_ingress_hostname_source,
  external_dns_hostname_source_annotation_only, disabled_ingress_class_name,
  ingress_disabled_reason_normal, ingress_disabled_reason_external_dns, true_text,
}
use ingress_operator.Controller.Memory.{Memory, mark_self_deleted}

abbrev pub disabled_ingress_class_controller : Text
disabled_ingress_class_controller = codes "dummy.io/no-controller"

unfoldable pub insert_if_none : Text → Text → Dict Text → Option Text → Dict Text
insert_if_none k v d none = insert k v d
insert_if_none k v d (some w) = d

-- `d[k] = v` unless there is a value already.
unfoldable pub insert_new : Text → Text → Dict Text → Dict Text
unfolding insert_if_none
insert_new k v d = insert_if_none k v d (lookup k d)

-- The original ingressClassName is saved, unless it is the text of a true flag.
unfoldable pub save_class_name : Option Text → Dict Text → Dict Text
unfolding insert_new
save_class_name none annotations = annotations
save_class_name (some class) annotations =
    if class == true_text
    then annotations
    else insert_new original_ingress_class_name_annotation class annotations

-- The original class annotation is saved, if it is filled.
unfoldable pub save_class : Dict Text → Dict Text
unfolding insert_new
save_class annotations =
    if get ingress_class_annotation annotations == []
    then annotations
    else insert_new original_ingress_class_annotation (get ingress_class_annotation annotations)
        annotations

-- Whether disableIngress has something to change.
unfoldable pub is_class_modified : Ingress → Bool
is_class_modified ingress =
    elim ingress.ingress_class_name [
      | none ↦ true
      | some class ↦ not (class == disabled_ingress_class_name)
    ]
    || not (get ingress_class_annotation ingress.annotations == disabled_ingress_class_name)

-- The ingress that disableIngress writes.
unfoldable pub disabled_ingress : Ingress → Ingress
unfolding save_class save_class_name
disabled_ingress ingress = record ingress {
  ingress_class_name = some disabled_ingress_class_name;
  annotations = insert ingress_disabled_annotation ingress_disabled_reason_normal (
      insert ingress_class_annotation disabled_ingress_class_name
        (save_class (save_class_name ingress.ingress_class_name ingress.annotations)));
}

-- The external-dns annotations of an ingress, after disableExternalDNS: the first step saves the
-- hostname, the second the source, the third marks the ingress, the last sets the source.
unfoldable pub save_hostname : Dict Text → Dict Text
unfolding insert_new
save_hostname annotations =
    if get external_dns_hostname_annotation annotations == []
    then annotations
    else insert_new original_external_dns_hostname
        (get external_dns_hostname_annotation annotations) annotations

unfoldable pub save_source_value : Dict Text → Option Text → Dict Text
unfolding insert_new
save_source_value annotations none = annotations
save_source_value annotations (some source) =
    if source == external_dns_hostname_source_annotation_only
    then annotations
    else insert_new original_external_dns_ingress_hostname_source source annotations

unfoldable pub save_source : Dict Text → Dict Text
unfolding save_source_value
save_source annotations =
    save_source_value annotations (lookup external_dns_ingress_hostname_source annotations)

unfoldable pub mark_external_dns : Dict Text → Dict Text
mark_external_dns annotations =
    let value = get ingress_disabled_annotation annotations in
    if value == ingress_disabled_reason_normal || value == ingress_disabled_reason_external_dns
    then annotations
    else insert ingress_disabled_annotation ingress_disabled_reason_external_dns annotations

unfoldable pub set_annotation_only : Dict Text → Dict Text
set_annotation_only annotations =
    if get external_dns_ingress_hostname_source annotations
      == external_dns_hostname_source_annotation_only
    then annotations
    else insert external_dns_ingress_hostname_source external_dns_hostname_source_annotation_only
        annotations

unfoldable pub external_dns_disabled : Dict Text → Dict Text
unfolding save_hostname save_source mark_external_dns set_annotation_only
external_dns_disabled annotations =
    set_annotation_only (mark_external_dns (save_source (save_hostname annotations)))

-- Whether one of the steps changes something.
unfoldable pub is_external_dns_modified : Dict Text → Bool
is_external_dns_modified annotations =
    let value = get ingress_disabled_annotation annotations in
    let source = get external_dns_ingress_hostname_source annotations in
    (not (get external_dns_hostname_annotation annotations == [])
      && elim (lookup original_external_dns_hostname annotations) [ none ↦ true | some v ↦ false ])
    || elim (lookup external_dns_ingress_hostname_source annotations) [
      | none ↦ false
      | some s ↦
          not (s == external_dns_hostname_source_annotation_only)
          && elim (lookup original_external_dns_ingress_hostname_source annotations) [
            | none ↦ true
            | some v ↦ false
          ]
    ]
    || (not (value == ingress_disabled_reason_normal)
        && not (value == ingress_disabled_reason_external_dns))
    || not (source == external_dns_hostname_source_annotation_only)

-- The annotations with which removeIngress marks an ingress.
unfoldable pub removal_annotations : Dict Text → Dict Text
removal_annotations annotations =
    insert ignore_ingress_annotation true_text
      (insert ingress_removed_annotation true_text annotations)

module _ {State : Type 0} (ingresses : Client State Ingress) where
  fetched : (State → Ingress → Outcome State) → State → Answer Ingress → Outcome State
  unfolding fails
  fetched next s (err e) = fails s (plain e)
  fetched next s (ok ingress) = next s ingress

  status_result : (State → Ingress → Outcome State) → State → Ingress → Answer State → Outcome State
  unfolding done fails fetched
  status_result next s ingress (ok s') = done s'
  status_result next s ingress (err (other conflict)) =
      fetched next s (ingresses.get_object s ingress.namespace ingress.name)
  status_result next s ingress (err e) =
      fails s (wrapped (codes "failed to clear Ingress status.loadBalancer") e)

  -- The attempts of clearIngressStatus: another one after a conflict, with the ingress read again.
  -- When none is left, this is no error.
  clear_attempts : (State → Ingress → Answer State) → ℕ → State → Ingress → Outcome State
  unfolding done status_result
  clear_attempts update_status zero s ingress = done s
  clear_attempts update_status (suc n) s ingress =
      status_result (clear_attempts update_status n) s ingress
        (update_status s (record ingress { load_balancer = [] }))

  -- clearIngressStatus
  unfoldable pub clear_ingress_status :
      (State → Ingress → Answer State) → State → Ingress → Outcome State
  unfolding done clear_attempts
  clear_ingress_status update_status s ingress =
      if is_empty ingress.load_balancer then done s else clear_attempts update_status 2 s ingress

  module _ (classes : Client State IngressClass) where
    class_created : State → Answer State → Outcome State
    unfolding done fails
    class_created s (ok s') = done s'
    class_created s (err (other already_exists)) = done s
    class_created s (err e) = fails s (wrapped (codes "failed to create disabled IngressClass") e)

    class_found : State → Answer IngressClass → Outcome State
    unfolding done fails class_created
    class_found s (ok class) = done s
    class_found s (err not_found) = class_created s (
        classes.create_object s (record {
          namespace = [];
          name = disabled_ingress_class_name;
          controller = disabled_ingress_class_controller;
        }))
    class_found s (err (other m)) = fails s (plain (other m))

    -- ensureDisabledIngressClass
    unfoldable pub ensure_disabled_ingress_class : State → Outcome State
    unfolding class_found
    ensure_disabled_ingress_class s =
        class_found s (classes.get_object s [] disabled_ingress_class_name)

    go_on : Outcome State → (State → Outcome State) → Option Failure → Outcome State
    go_on first next (some f) = first
    go_on first next none = next first.state

    update_disabled : State → Ingress → Outcome State
    unfolding done written
    update_disabled s ingress =
        if is_class_modified ingress
        then written s (codes "failed to update Ingress to disable it") []
            (ingresses.update_object s (disabled_ingress ingress))
        else done s

    -- disableIngress. The status is cleared where the flag asks for it.
    unfoldable pub disable_ingress :
        Bool → (State → Ingress → Answer State) → State → Ingress → Outcome State
    unfolding done go_on update_disabled
    disable_ingress clear_status update_status s ingress =
        let clear : Ingress → State → Outcome State =
          λ i s'. if clear_status then clear_ingress_status update_status s' i else done s' in
        let written_ingress : Ingress =
          if is_class_modified ingress then disabled_ingress ingress else record ingress {
            annotations =
                save_class (save_class_name ingress.ingress_class_name ingress.annotations);
          } in
        let ensured = ensure_disabled_ingress_class s in
        let update : State → Outcome State = λ s'.
          let updated = update_disabled s' ingress in
          go_on updated (clear written_ingress) updated.failure in
        if get ingress_disabled_annotation ingress.annotations == ingress_disabled_reason_normal
        then clear ingress s
        else go_on ensured update ensured.failure

  external_dns_found : State → Answer Ingress → Outcome State
  unfolding done fails written
  external_dns_found s (err not_found) = done s
  external_dns_found s (err (other m)) =
      fails s (wrapped (codes "failed to fetch Ingress") (other m))
  external_dns_found s (ok latest) =
      if is_external_dns_modified latest.annotations
      then written s (codes "failed to update Ingress to disable external-dns") [] (
          ingresses.update_object s
            (record latest { annotations = external_dns_disabled latest.annotations }))
      else done s

  -- disableExternalDNS
  unfoldable pub disable_external_dns : State → Ingress → Outcome State
  unfolding external_dns_found
  disable_external_dns s ingress =
      external_dns_found s (ingresses.get_object s ingress.namespace ingress.name)

  source_deleted : State → Answer State → Outcome State
  unfolding done fails
  source_deleted s (ok s') = done s'
  source_deleted s (err not_found) = done s
  source_deleted s (err (other m)) =
      fails s (wrapped (codes "failed to delete source Ingress") (other m))

  removal_marked : ℕ → Memory → State → Ingress → Answer State → Outcome State × Memory
  unfolding fails source_deleted
  removal_marked now m s ingress (err e) =
      (fails s (wrapped (codes "failed to mark Ingress for removal") e), m)
  removal_marked now m s ingress (ok s') =
      (source_deleted s' (ingresses.delete_object s' ingress), mark_self_deleted now ingress m)

  -- removeIngress
  unfoldable pub remove_ingress : ℕ → Memory → State → Ingress → Outcome State × Memory
  unfolding removal_marked source_deleted
  remove_ingress now m s ingress =
      let marked : Ingress = record ingress {
        annotations = removal_annotations ingress.annotations;
      } in
      if get ingress_removed_annotation ingress.annotations == true_text
      then (source_deleted s (ingresses.delete_object s ingress), mark_self_deleted now ingress m)
      else removal_marked now m s marked (ingresses.update_object s marked)
