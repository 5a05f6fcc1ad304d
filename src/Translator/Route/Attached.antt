-- ===== src/Translator/Route/Attached.antt =====
-- How an HTTPRoute is attached to the Gateway of the same ingress.
use ingress_operator.Prelude.{
  ◌≡◌, refl, ◌∙◌, Bool, true, Option, List, [], ◌∷◌, All, contains-All, contains,
}
use ingress_operator.Text.{Text, text_eq}
use ingress_operator.Dict.{MapOrder}
use ingress_operator.Kube.{Ingress, Gateway, ParentRef}
use ingress_operator.Translator.{Config}
use ingress_operator.Translator.Gateway.{translate_to_gateway}
use ingress_operator.Translator.Gateway.Listeners.{
  listener_names, contains-translate_to_gateway-listeners,
}
use ingress_operator.Translator.Route.{
  parent_refs_of, route_hostnames, translate_to_http_route_with_canaries,
}

-- A reference to a Gateway by its name and namespace, at one of its listeners.
pub record RefersTo (g : Gateway) (r : ParentRef) : Type 0 where
  pub same_name : r.name ≡ g.name
  pub same_namespace : r.namespace ≡ g.namespace
  pub same_section : contains (listener_names g.listeners) r.section_name ≡ true

refs_All :
    (t : Config) (g : Gateway) (hostnames : List Text)
    → t.gateway_name ≡ g.name
    → t.gateway_namespace ≡ g.namespace
    → All (λ n. contains (listener_names g.listeners) n ≡ true) hostnames
    → All (RefersTo g) (parent_refs_of t hostnames)
unfolding parent_refs_of
refs_All t g [] hn hs h = tt
refs_All t g (n ∷ hostnames) hn hs (hl, h) = (
  record { same_name = hn; same_namespace = hs; same_section = hl },
  refs_All t g hostnames hn hs h,
)

-- Every parent reference of the HTTPRoute of an ingress is to the Gateway that the same ingress
-- is translated to, and names one of its listeners.
pub parent_refs-RefersTo :
    (order : MapOrder) (glob : Text → Text → Option Bool) (t : Config) (ingress : Ingress)
    (canaries : List Ingress)
    → All
        (RefersTo (translate_to_gateway order glob t ingress))
        (translate_to_http_route_with_canaries t ingress canaries).parent_refs
unfolding translate_to_http_route_with_canaries
parent_refs-RefersTo order glob t ingress canaries =
    refs_All t (translate_to_gateway order glob t ingress) (route_hostnames t ingress.rules)
      (unfold translate_to_gateway in refl) (unfold translate_to_gateway in refl)
      (contains-All _ (route_hostnames t ingress.rules)
        λ n h. contains-translate_to_gateway-listeners t ingress order glob canaries n ∙ h)
