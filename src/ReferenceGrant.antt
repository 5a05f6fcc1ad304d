-- ===== src/ReferenceGrant.antt =====
-- The ReferenceGrants that let a Gateway read TLS secrets of other namespaces:
-- internal/utils/referencegrant.go, with GetNamespacesWithTLS and CreateReferenceGrant of
-- internal/translator/translator.go and CanUpdateResource of internal/utils/resource.go.
pub mod Namespaces
pub mod Cleanup
pub mod Kept
pub mod Apply
pub mod Granted
use ingress_operator.Prelude.{
  Bool, true, false, not, ◌&&◌, ◌||◌, Option, none, some, List, [], ◌∷◌, ◌++◌, ◌==◌, if◌then◌else◌,
  is_empty, keep, some_of, contains,
}
use ingress_operator.Text.{Text, codes, text_eq, join}
use ingress_operator.Dict.{Dict, insert, get, keys, MapOrder}
use ingress_operator.Kube.{Ingress, HttpRoute, ReferenceGrant}
use ingress_operator.Values.{split_sources, remove_string, contains_string}
use ingress_operator.Client.{
  ApiError, not_found, other, Failure, plain, wrapped, Answer, ok, err, Client, Outcome, done,
  fails, written,
}
use ingress_operator.Resource.{is_managed_by_us, is_managed_by_us_with_ingress}
use ingress_operator.Translator.{
  Config, managed_by_annotation, managed_by_value, source_annotation, reference_grant_name,
  qualified,
}
use ingress_operator.Translator.Gateway.Shared.{source_names}

-- The map that GetNamespacesWithTLS fills.
unfoldable pub namespaces_with_tls : Config → List Ingress → Dict Bool → Dict Bool
namespaces_with_tls t [] set = set
namespaces_with_tls t (ingress ∷ ingresses) set = namespaces_with_tls t ingresses (
    if is_empty ingress.tls || ingress.namespace == t.gateway_namespace
    then set
    else insert ingress.namespace true set)

-- GetNamespacesWithTLS
unfoldable pub get_namespaces_with_tls : MapOrder → Config → List Ingress → List Text
unfolding namespaces_with_tls
get_namespaces_with_tls order t ingresses =
    keys (order.arrange Bool (namespaces_with_tls t ingresses []))

-- CreateReferenceGrant
unfoldable pub create_reference_grant : Config → Text → List Ingress → ReferenceGrant
create_reference_grant t ingress_namespace ingresses = record {
  namespace = ingress_namespace;
  name = reference_grant_name;
  annotations =
      (managed_by_annotation, managed_by_value)
      ∷ (source_annotation, join (source_names ingresses) (codes ","))
      ∷ [];
  from =
      record {
        group = codes "gateway.networking.k8s.io";
        kind = codes "Gateway";
        namespace = t.gateway_namespace;
      }
      ∷ [];
  to = record { group = []; kind = codes "Secret" } ∷ [];
}

-- The existing grant lists sources, and none of those of the new one.
pub other_sources : ReferenceGrant → ReferenceGrant → Bool
other_sources existing grant =
    let existing_sources = split_sources (get source_annotation existing.annotations) in
    let new_sources = split_sources (get source_annotation grant.annotations) in
    not (some_of (λ source. contains_string existing_sources source) new_sources)
    && not (is_empty existing_sources)

module _ {State : Type 0} where
  module _ (grants : Client State ReferenceGrant) where
    -- A deletion of an object that is gone already is no failure.
    deleted : State → Answer State → Outcome State
    unfolding done fails
    deleted s (ok s') = done s'
    deleted s (err not_found) = done s
    deleted s (err (other m)) =
        fails s (wrapped (codes "failed to delete ReferenceGrant") (other m))

    -- The grant was found.
    cleanup_found : State → ReferenceGrant → Text → Text → Outcome State
    unfolding done written deleted
    cleanup_found s grant namespace name =
        let sources = split_sources (get source_annotation grant.annotations) in
        let new_sources = remove_string sources (qualified namespace name) in
        let updated = record grant {
          annotations = insert source_annotation (join new_sources (codes ",")) grant.annotations;
        } in
        if not (is_managed_by_us_with_ingress grant.annotations namespace name)
        then done s
        else if is_empty new_sources
        then deleted s (grants.delete_object s grant)
        else written s (codes "failed to update ReferenceGrant") [] (grants.update_object s updated)

    -- CleanupReferenceGrantIfNeeded
    unfoldable pub cleanup_reference_grant_if_needed : State → Text → Text → Outcome State
    unfolding done fails cleanup_found
    cleanup_reference_grant_if_needed s namespace name =
        elim (grants.get_object s namespace reference_grant_name) [
          | err not_found ↦ done s
          | err (other m) ↦ fails s (plain (other m))
          | ok grant ↦ cleanup_found s grant namespace name
        ]

  -- What ApplyReferenceGrant calls besides: the list of a namespace's ingresses, the HTTPRoutes,
  -- and controllerutil.SetControllerReference with the scheme, if there is one.
  module _ (grants : Client State ReferenceGrant)
      (list_ingresses : State → Text → Answer (List Ingress))
      (get_route : State → Text → Text → Answer HttpRoute)
      (set_owner : Option (HttpRoute → ReferenceGrant → Answer ReferenceGrant)) (has_metric : Bool)
      (t : Config) where
    metric : Text → Text → List (Text × Text × Text)
    metric operation namespace =
        if has_metric then (operation, namespace, reference_grant_name) ∷ [] else []

    pub owned_by :
        State
        → Text
        → List Ingress
        → ReferenceGrant
        → Option (HttpRoute → ReferenceGrant → Answer ReferenceGrant)
        → Answer ReferenceGrant
    owned_by s namespace (ingress ∷ []) grant (some set) =
        elim (get_route s namespace ingress.name) [ err e ↦ ok grant | ok route ↦ set route grant ]
    owned_by s namespace ingresses grant set = ok grant

    -- An existing grant is written over only if it is ours, and lists one of the sources or none.
    apply_existing : State → Text → ReferenceGrant → ReferenceGrant → Outcome State
    unfolding done written metric other_sources
    apply_existing s namespace grant existing =
        let updated = record existing {
          from = grant.from;
          to = grant.to;
          annotations = grant.annotations;
        } in
        if not (is_managed_by_us existing.annotations) || other_sources existing grant
        then done s
        else written s (codes "failed to update ReferenceGrant") (metric (codes "update") namespace)
            (grants.update_object s updated)

    apply_owned : State → Text → ReferenceGrant → Outcome State
    unfolding fails written metric apply_existing
    apply_owned s namespace grant = elim (grants.get_object s namespace reference_grant_name) [
      | err not_found ↦
          written s (codes "failed to create ReferenceGrant") (metric (codes "create") namespace)
            (grants.create_object s grant)
      | err (other m) ↦ fails s (plain (other m))
      | ok existing ↦ apply_existing s namespace grant existing
    ]

    -- ApplyReferenceGrant
    unfoldable pub apply_reference_grant : State → Text → Outcome State
    unfolding fails owned_by apply_owned
    apply_reference_grant s namespace = elim (list_ingresses s namespace) [
      | err e ↦ fails s (wrapped (codes "failed to list Ingresses") e)
      | ok ingresses ↦
          let with_tls = keep (λ ingress. not (is_empty ingress.tls)) ingresses in
          let grant = create_reference_grant t namespace with_tls in
          elim (owned_by s namespace with_tls grant set_owner) [
            | err e ↦ fails s (plain e)
            | ok grant' ↦ apply_owned s namespace grant'
          ]
    ]

    continue_from : (State → Outcome State) → Outcome State → Option Failure → Outcome State
    continue_from next first (some f) = first
    continue_from next first none =
        let later = next first.state in record later { metrics = first.metrics ++ later.metrics }

    -- The loop of EnsureReferenceGrants ends at the first failure.
    unfoldable pub apply_all : List Text → State → Outcome State
    unfolding done continue_from
    apply_all [] s = done s
    apply_all (namespace ∷ namespaces) s =
        let first = apply_reference_grant s namespace in
        continue_from (apply_all namespaces) first first.failure

    -- EnsureReferenceGrants
    unfoldable pub ensure_reference_grants : MapOrder → List Ingress → State → Outcome State
    ensure_reference_grants order ingresses = apply_all (get_namespaces_with_tls order t ingresses)
