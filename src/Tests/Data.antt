-- ===== src/Tests/Data.antt =====
-- The objects of the tests.
use ingress_operator.Prelude.{Bool, false, Option, some, [], ◌∷◌}
use ingress_operator.Text.{Text, codes, same}
use ingress_operator.Kube.{Ingress, HttpIngressPath, prefix}
use ingress_operator.Translator.{Config}

abbrev pub config : Config
config = record {
  gateway_namespace = codes "gw";
  gateway_name = codes "shared";
  gateway_class_name = codes "nginx";
  hostname_rewrite_from = codes "old.io";
  hostname_rewrite_to = codes "new.io";
  default_gateway_annotations = [];
  gateway_infrastructure_annotations = [];
  infrastructure_annotations_by_class =
      record { pattern_text = codes "inner"; annotations = (codes "scope", codes "inner") ∷ [] }
      ∷ record { pattern_text = codes "!"; annotations = (codes "scope", codes "outer") ∷ [] }
      ∷ [];
  gateway_annotation_filters = codes "nginx" ∷ [];
  http_route_annotation_filters = codes "nginx" ∷ [];
}

-- A pattern without wildcards.
abbrev pub exact_glob : Text → Text → Option Bool
exact_glob pattern_text name = some (same pattern_text name)

abbrev pub shop_path : HttpIngressPath
shop_path = record {
  path = codes "/cart";
  path_type = some prefix;
  service = some (record { name = codes "cart"; port_number = 80; port_name = [] });
}

abbrev pub shop : Ingress
shop = record {
  api_version = codes "networking.k8s.io/v1";
  kind = codes "Ingress";
  namespace = codes "ns";
  name = codes "shop";
  annotations = (codes "nginx.x", codes "1") ∷ (codes "team", codes "a") ∷ [];
  ingress_class_name = some (codes "inner");
  tls = record { hosts = codes "a.old.io" ∷ []; secret_name = codes "cert" } ∷ [];
  rules = record { host = codes "a.old.io"; http = some (shop_path ∷ []) } ∷ [];
  uid = codes "u-1";
  resource_version = codes "7";
  finalizers = [];
  created = 5;
  deleting = false;
  load_balancer = [];
}

-- A canary of the shop, which takes a fifth of the requests.
abbrev pub shop_canary : Ingress
shop_canary = record {
  api_version = codes "networking.k8s.io/v1";
  kind = codes "Ingress";
  namespace = codes "ns";
  name = codes "shop-canary";
  annotations =
      (codes "nginx.ingress.kubernetes.io/canary", codes "true")
      ∷ (codes "nginx.ingress.kubernetes.io/canary-weight", codes "20")
      ∷ [];
  ingress_class_name = some (codes "inner");
  tls = [];
  rules = record { host = codes "a.old.io"; http = some (shop_path ∷ []) } ∷ [];
  uid = codes "u-2";
  resource_version = codes "7";
  finalizers = [];
  created = 6;
  deleting = false;
  load_balancer = [];
}
