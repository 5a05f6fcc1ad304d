-- ===== src/Kube.antt =====
-- The Kubernetes objects, with the fields that the sources read or write. A nil map and an empty
-- one are not told apart: the sources only read them, or make a nil map before they write to it.
-- Ports and weights are numbers: the API server refuses negative ones.
use ingress_operator.Prelude.{ℕ, Bool, true, Option, none, some, List, [], ◌∷◌}
use ingress_operator.Text.{Text}
use ingress_operator.Dict.{Dict}

-- networking.k8s.io/v1
pub data PathType : Type 0 where
  exact prefix implementation_specific : PathType

pub record ServiceBackend : Type 0 where
  pub name : Text
  pub port_number : ℕ
  pub port_name : Text

pub record HttpIngressPath : Type 0 where
  pub path : Text
  pub path_type : Option PathType
  pub service : Option ServiceBackend

pub record IngressRule : Type 0 where
  pub host : Text
  pub http : Option (List HttpIngressPath)

pub record IngressTls : Type 0 where
  pub hosts : List Text
  pub secret_name : Text

pub record Ingress : Type 0 where
  pub api_version : Text
  pub kind : Text
  pub namespace : Text
  pub name : Text
  pub annotations : Dict Text
  pub ingress_class_name : Option Text
  pub tls : List IngressTls
  pub rules : List IngressRule
  pub uid : Text
  pub resource_version : Text
  pub finalizers : List Text
  -- The creation time, and whether there is a deletion timestamp.
  pub created : ℕ
  pub deleting : Bool
  -- The addresses of status.loadBalancer.ingress.
  pub load_balancer : List Text

pub record IngressClass : Type 0 where
  pub namespace : Text
  pub name : Text
  pub controller : Text

-- v1, Service
pub record ServicePort : Type 0 where
  pub name : Text
  pub port : ℕ

pub record Service : Type 0 where
  pub namespace : Text
  pub name : Text
  pub ports : List ServicePort

-- gateway.networking.k8s.io/v1, Gateway
pub record SecretRef : Type 0 where
  pub name : Text
  pub namespace : Text

-- A requirement of a label selector: whether its operator is In, and its values.
pub record Requirement : Type 0 where
  pub key : Text
  pub is_in : Bool
  pub values : List Text

pub record Selector : Type 0 where
  pub labels : Option (Dict Text)
  pub expressions : List Requirement

abbrev pub match_labels : Dict Text → Option Selector
match_labels labels = some (record { labels = some labels; expressions = [] })

abbrev pub match_in : Text → List Text → Option Selector
match_in key values = some (record {
  labels = none;
  expressions = record { key = key; is_in = true; values = values } ∷ [];
})

pub record Listener : Type 0 where
  pub name : Text
  pub hostname : Option Text
  pub port : ℕ
  pub protocol : Text
  -- The selector of allowedRoutes.namespaces, if there is one.
  pub selector : Option Selector
  -- The certificates of a TLS configuration in mode Terminate.
  pub tls : Option (List SecretRef)

pub record Gateway : Type 0 where
  pub namespace : Text
  pub name : Text
  pub annotations : Dict Text
  pub gateway_class_name : Text
  -- The annotations of spec.infrastructure.
  pub infrastructure : Option (Dict Text)
  pub listeners : List Listener

-- gateway.networking.k8s.io/v1, HTTPRoute
pub data PathMatchType : Type 0 where
  path_exact path_prefix : PathMatchType

pub data HeaderMatchType : Type 0 where
  header_exact header_regular_expression : HeaderMatchType

pub record PathMatch : Type 0 where
  pub type : PathMatchType
  pub value : Text

pub record HeaderMatch : Type 0 where
  pub type : HeaderMatchType
  pub name : Text
  pub value : Text

pub record RouteMatch : Type 0 where
  pub path : Option PathMatch
  pub headers : List HeaderMatch

pub record BackendRef : Type 0 where
  pub name : Text
  pub port : Option ℕ
  pub weight : Option ℕ

pub record Header : Type 0 where
  pub name : Text
  pub value : Text

pub record HeaderFilter : Type 0 where
  pub add : List Header
  pub set : List Header
  pub remove : List Text

pub data RouteFilter : Type 0 where
  request_header_modifier : HeaderFilter → RouteFilter
  response_header_modifier : HeaderFilter → RouteFilter
  -- The group, the kind and the name of the object that is referred to.
  extension_ref : Text → Text → Text → RouteFilter

pub record RouteRule : Type 0 where
  pub matches : List RouteMatch
  pub filters : List RouteFilter
  pub backend_refs : List BackendRef

pub record ParentRef : Type 0 where
  pub name : Text
  pub namespace : Text
  pub section_name : Text

pub record OwnerReference : Type 0 where
  pub api_version : Text
  pub kind : Text
  pub name : Text
  pub uid : Text
  pub controller : Bool
  pub block_owner_deletion : Bool

pub record HttpRoute : Type 0 where
  pub namespace : Text
  pub name : Text
  pub annotations : Dict Text
  pub owner_references : List OwnerReference
  pub finalizers : List Text
  pub deleting : Bool
  pub hostnames : List Text
  pub parent_refs : List ParentRef
  pub rules : List RouteRule

-- gateway.networking.k8s.io/v1beta1, ReferenceGrant
pub record GrantFrom : Type 0 where
  pub group : Text
  pub kind : Text
  pub namespace : Text

pub record GrantTo : Type 0 where
  pub group : Text
  pub kind : Text

pub record ReferenceGrant : Type 0 where
  pub namespace : Text
  pub name : Text
  pub annotations : Dict Text
  pub from : List GrantFrom
  pub to : List GrantTo
