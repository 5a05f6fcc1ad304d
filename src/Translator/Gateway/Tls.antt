-- ===== src/Translator/Gateway/Tls.antt =====
-- The TLS configuration of a listener: which certificate it presents.
use ingress_operator.Prelude.{
  not, ◌&&◌, Option, none, some, List, [], ◌∷◌, ◌++◌, ◌==◌, if◌then◌else◌, contains,
}
use ingress_operator.Text.{Text, codes, text_eq}
use ingress_operator.Kube.{IngressTls, SecretRef}
use ingress_operator.Translator.{Config, qualified}
use ingress_operator.Translator.Hostname.{check_certificate_match}

-- findTLSConfigForHostInIngress, and the same loops in TranslateToGateway: the first
-- configuration that lists the host.
unfoldable pub find_tls_config_for_host : List IngressTls → Text → Option IngressTls
find_tls_config_for_host [] host = none
find_tls_config_for_host (tls ∷ rest) host =
    if contains tls.hosts host then some tls else find_tls_config_for_host rest host

-- The entry that notes a certificate that does not match.
unfoldable pub mismatch_entry : Text → Text → SecretRef → SecretRef → Text
mismatch_entry original transformed old new =
    original
    ++ (codes "->"
        ++ (transformed
            ++ (codes ": "
                ++ (qualified old.namespace old.name
                    ++ (codes "->" ++ qualified new.namespace new.name)))))

-- The secret that a listener refers to, and the note if it is not the one of the ingress. The
-- new secret has the given name and stands in the namespace of the gateway.
unfoldable pub certificate : Config → Text → Text → Text → Text → IngressTls → SecretRef × List Text
certificate t hostname transformed namespace new_name tls_config =
    let old : SecretRef = record { name = tls_config.secret_name; namespace = namespace } in
    let new : SecretRef = record { name = new_name; namespace = t.gateway_namespace } in
    if not (hostname == transformed)
      && not (check_certificate_match hostname transformed tls_config.hosts)
    then (new, mismatch_entry hostname transformed old new ∷ [])
    else (old, [])

-- Without a configuration, or with one that names no secret, the listener has no TLS part.
unfoldable pub listener_tls :
    Config → Text → Text → Text → Text → Option IngressTls → Option (List SecretRef) × List Text
unfolding certificate
listener_tls t hostname transformed namespace new_name none = (none, [])
listener_tls t hostname transformed namespace new_name (some tls_config) =
    let (ref, mismatches) = certificate t hostname transformed namespace new_name tls_config in
    if tls_config.secret_name == [] then (none, []) else (some (ref ∷ []), mismatches)
