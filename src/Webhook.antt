-- ===== src/Webhook.antt =====
-- What the admission webhook answers: the response of Handle of internal/webhook/ingress_webhook.go.
-- What Handle writes to the cluster does not change the response, and is left out.
pub mod Agreed
use ingress_operator.Prelude.{
  Bool, true, false, not, ◌&&◌, ◌||◌, Option, none, some, List, [], ◌∷◌, ◌==◌, if◌then◌else◌,
}
use ingress_operator.Text.{Text, codes, text_eq}
use ingress_operator.Dict.{get, insert}
use ingress_operator.Kube.{Ingress}
use ingress_operator.Client.{Answer, ApiError, ok, err}
use ingress_operator.Translator.{ingress_class_annotation}
use ingress_operator.Translator.Canary.{is_canary}
use ingress_operator.Controller.{ignore_ingress_annotation, true_text, text_of}

abbrev pub allow_ingress_annotation : Text
allow_ingress_annotation = codes "ingress-doperator.fiction.si/allow-ingress"

abbrev pub webhook_annotation : Text
webhook_annotation = codes "ingress-doperator.fiction.si/webhook"

-- IngressMutator, the fields of the classes.
pub record IngressMutator : Type 0 where
  pub ingress_class_filters : List Text
  pub ingress_class_ignore_filters : List Text
  pub ingress_class_empty : Text

-- admission.Response. A patch is given by the ingress that it leads to.
pub data Response : Type 0 where
  allowed : Text → Response
  denied : Response
  errored : ApiError → Response
  patched : Ingress → Response

-- getIngressClass
unfoldable pub get_ingress_class : IngressMutator → Ingress → Text
get_ingress_class m ingress =
    if not (text_of ingress.ingress_class_name == [])
    then text_of ingress.ingress_class_name
    else if not (get ingress_class_annotation ingress.annotations == [])
    then get ingress_class_annotation ingress.annotations
    else if not (m.ingress_class_empty == [])
    then m.ingress_class_empty
    else []

-- The first loop of matchIngressClassPatterns.
unfoldable pub has_wildcard : List Text → Bool
has_wildcard [] = false
has_wildcard (pattern ∷ patterns) =
    let rest = has_wildcard patterns in if pattern == codes "*" then true else rest

-- The second loop, with the result of filepath.Match, or `none` for an invalid pattern.
unfoldable pub has_match : (Text → Text → Option Bool) → List Text → Text → Bool
has_match glob [] ingress_class = false
has_match glob (pattern ∷ patterns) ingress_class =
    let rest = has_match glob patterns ingress_class in
    let tried : Bool = elim (glob pattern ingress_class) [
      | none ↦ rest
      | some matched ↦ if matched then true else rest
    ] in
    if pattern == [] || pattern == codes "*" then rest else tried

unfoldable pub match_class_patterns : (Text → Text → Option Bool) → List Text → Text → Bool
unfolding has_wildcard has_match
match_class_patterns glob [] ingress_class = false
match_class_patterns glob (p ∷ ps) ingress_class =
    if has_wildcard (p ∷ ps)
    then true
    else if ingress_class == []
    then false
    else has_match glob (p ∷ ps) ingress_class

-- The end of Handle, with the error of the translation, if there is one.
unfoldable pub admitted_after : Ingress → Option ApiError → Response
admitted_after ingress (some e) = errored e
admitted_after ingress none =
    if not (get allow_ingress_annotation ingress.annotations == true_text)
    then denied
    else patched
        (record ingress { annotations = insert webhook_annotation true_text ingress.annotations })

module _ (glob : Text → Text → Option Bool) (m : IngressMutator)
    (translate_error : Ingress → Option ApiError) where
  -- Handle, for an ingress that is decoded.
  unfoldable pub handle_decoded : Ingress → Response
  handle_decoded ingress =
      if get ignore_ingress_annotation ingress.annotations == true_text
      then allowed (codes "ignored")
      else if match_class_patterns glob m.ingress_class_ignore_filters (get_ingress_class m ingress)
      then allowed (codes "ingress class ignored")
      else if not (match_class_patterns glob m.ingress_class_filters (get_ingress_class m ingress))
      then allowed (codes "ingress class filtered")
      else if is_canary ingress
      then allowed (codes "canary handled by operator")
      else admitted_after ingress (translate_error ingress)

  unfoldable pub handle : Answer Ingress → Response
  handle (err e) = errored e
  handle (ok ingress) = handle_decoded ingress
