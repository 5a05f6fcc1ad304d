-- ===== src/Translator/Gateway/Annotated.antt =====
-- The translated objects are marked as the operator's own.
use ingress_operator.Prelude.{
  ◌≡◌, refl, ◌∙◌, Bool, true, false, Option, List, [], ◌∷◌, ◌==◌, All, contains,
}
use ingress_operator.Text.{Text, codes, text_eq, same, join}
use ingress_operator.Text.Laws.{same_refl}
use ingress_operator.Text.Split.{tokens-join}
use ingress_operator.Dict.{Dict, get, insert, get-insert, MapOrder}
use ingress_operator.Kube.{Ingress}
use ingress_operator.Values.{split_sources}
use ingress_operator.Values.Comma.{IsValue}
use ingress_operator.Translator.{
  Config, managed_by_annotation, managed_by_value, source_annotation, mismatched_cert_annotation,
  qualified,
}
use ingress_operator.Translator.Gateway.{note_mismatches, translate_to_gateway}
use ingress_operator.Translator.Gateway.Shared.{
  note_shared_mismatches, translate_multiple_to_shared_gateway, source_names,
}
use ingress_operator.Translator.Route.{translate_to_http_route_with_canaries}
use ingress_operator.Resource.{
  is_managed_by_us, is_managed_by_us_for_ingress, is_managed_by_us_with_ingress,
}
use ingress_operator.Resource.Ownership.{is_managed_by_us_with_ingress_lem}

-- Annotations that were stamped last, whatever was there before.
stamped : Text → Dict Text → Dict Text
stamped source annotations =
    insert source_annotation source (insert managed_by_annotation managed_by_value annotations)

source-ne-managed : (source_annotation == managed_by_annotation) ≡ false
unfolding same
source-ne-managed = refl

mismatched-ne-managed : (mismatched_cert_annotation == managed_by_annotation) ≡ false
unfolding same
mismatched-ne-managed = refl

mismatched-ne-source : (mismatched_cert_annotation == source_annotation) ≡ false
unfolding same
mismatched-ne-source = refl

get-managed-stamped :
    (source : Text) (annotations : Dict Text)
    → get managed_by_annotation (stamped source annotations) ≡ managed_by_value
unfolding stamped
get-managed-stamped source annotations =
    get-insert managed_by_annotation source_annotation source _
    ∙ rw (source-ne-managed, get-insert, same_refl managed_by_annotation)

get-source-stamped :
    (source : Text) (annotations : Dict Text)
    → get source_annotation (stamped source annotations) ≡ source
unfolding stamped
get-source-stamped source annotations =
    get-insert source_annotation source_annotation source _ ∙ rw (same_refl source_annotation)

get-note :
    (k : Text) (mismatches : List Text) (annotations : Dict Text)
    → (mismatched_cert_annotation == k) ≡ false
    → get k (note_mismatches mismatches annotations) ≡ get k annotations
unfolding note_mismatches
get-note k [] annotations h = refl
get-note k (m ∷ ms) annotations h =
    get-insert k mismatched_cert_annotation (join (m ∷ ms) (codes "; ")) annotations ∙ rw h

get-note_shared :
    (k : Text) (mismatches : List Text) (annotations : Dict Text)
    → (mismatched_cert_annotation == k) ≡ false
    → get k (note_shared_mismatches mismatches annotations) ≡ get k annotations
unfolding note_shared_mismatches
get-note_shared k [] annotations h = refl
get-note_shared k (m ∷ ms) annotations h =
    get-insert k mismatched_cert_annotation (join (m ∷ ms) (codes "; ")) annotations ∙ rw h

managed_for :
    (annotations : Dict Text) (namespace name : Text)
    → get managed_by_annotation annotations ≡ managed_by_value
    → get source_annotation annotations ≡ qualified namespace name
    → is_managed_by_us_for_ingress annotations namespace name ≡ true
unfolding is_managed_by_us_for_ingress
managed_for annotations namespace name h k =
    rw (h, k, same_refl managed_by_value, same_refl (qualified namespace name))

-- The Gateway and the HTTPRoute that an ingress is translated to are managed by the operator for
-- that ingress, whatever annotations are copied or configured.
pub translate-is_managed_by_us_for_ingress :
    (order : MapOrder) (glob : Text → Text → Option Bool) (t : Config) (ingress : Ingress)
    (canaries : List Ingress)
    → (is_managed_by_us_for_ingress
          (translate_to_gateway order glob t ingress).annotations
          ingress.namespace
          ingress.name
        ≡ true)
      × (is_managed_by_us_for_ingress
            (translate_to_http_route_with_canaries t ingress canaries).annotations
            ingress.namespace
            ingress.name
          ≡ true)
unfolding translate_to_gateway translate_to_http_route_with_canaries stamped
translate-is_managed_by_us_for_ingress order glob t ingress canaries = (
  managed_for _ ingress.namespace ingress.name
      (get-note managed_by_annotation _ _ mismatched-ne-managed ∙ get-managed-stamped _ _)
      (get-note source_annotation _ _ mismatched-ne-source ∙ get-source-stamped _ _),
  managed_for _ ingress.namespace ingress.name (get-managed-stamped _ _) (get-source-stamped _ _),
)

module _ (order : MapOrder) (glob : Text → Text → Option Bool) (t : Config)
    (ingresses : List Ingress) (gateway_name : Text) where
  shared_annotations : Dict Text
  shared_annotations =
      (translate_multiple_to_shared_gateway order glob t ingresses gateway_name).annotations

  get-managed-shared : get managed_by_annotation shared_annotations ≡ managed_by_value
  unfolding shared_annotations translate_multiple_to_shared_gateway stamped
  get-managed-shared =
      get-note_shared managed_by_annotation _ _ mismatched-ne-managed ∙ get-managed-stamped _ _

  get-source-shared :
      get source_annotation shared_annotations ≡ join (source_names ingresses) (codes ",")
  unfolding shared_annotations translate_multiple_to_shared_gateway stamped
  get-source-shared =
      get-note_shared source_annotation _ _ mismatched-ne-source ∙ get-source-stamped _ _

  -- A shared Gateway is managed with exactly the ingresses that it was made of, where their
  -- qualified names are single values.
  pub translate_multiple_to_shared_gateway-is_managed :
      (namespace name : Text)
      → All IsValue (source_names ingresses)
      → is_managed_by_us_with_ingress
          (translate_multiple_to_shared_gateway order glob t ingresses gateway_name).annotations
          namespace
          name
        ≡ contains (source_names ingresses) (qualified namespace name)
  unfolding shared_annotations split_sources is_managed_by_us
  translate_multiple_to_shared_gateway-is_managed namespace name h =
      is_managed_by_us_with_ingress_lem _ namespace name
      ∙ rw (
        get-managed-shared,
        get-source-shared,
        same_refl managed_by_value,
        tokens-join b',' [] tt (unfold contains in refl) (source_names ingresses) h,
      )
