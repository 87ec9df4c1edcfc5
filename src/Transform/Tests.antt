-- ===== src/Transform/Tests.antt =====
-- A pod of a trimmed cache, and the theorems at sample objects.
use scam.Base.{◌≡◌, refl, some, [], codes}
use scam.Kube.{Pod, Fields, Unstructured, text, slice, object, nil, cons, end, field}
use scam.Dynamic.Sample.{plain_meta, sample, remove, modify, delete}
use scam.Samples.{pod, no_sets, empty_log}
use scam.Pod.{emit_pod}
use scam.Refs.{route_backends, traefik_backends}
use scam.Transform.{trim_pod, trim_unstructured}
use scam.Transform.Pods.{trim_sets, trim_old, emit_pod-trim}
use scam.Transform.Custom.{emit_custom-trim}
use scam.Dynamic.Removal.{sample-IsRemoving}
use scam.Gateway.{Gvr, emit_gateway_api}
use scam.Traefik.{emit_traefik}

abbrev running : Pod
running = pod (codes "Running") (codes "docker.io/nginx@sha256:aa")

emit_pod-trim_example :
    emit_pod
      (trim_sets no_sets)
      (codes "UPDATE")
      (trim_pod running)
      (trim_old (some (pod (codes "Pending") [])))
      empty_log
    ≡ emit_pod no_sets (codes "UPDATE") running (some (pod (codes "Pending") [])) empty_log
emit_pod-trim_example =
    emit_pod-trim no_sets (codes "UPDATE") running (some (pod (codes "Pending") [])) empty_log

abbrev gateways : Gvr
gateways = record {
  group = codes "gateway.networking.k8s.io";
  version = codes "v1";
  resource = codes "gateways";
}

abbrev status : Fields
status = field (codes "conditions") (slice nil) (
    field (codes "addresses")
      (slice (cons (object (field (codes "value") (text (codes "10.0.0.1")) end)) nil)) end)

abbrev gateway : Unstructured
gateway = record {
  meta = plain_meta (codes "shop") (codes "gw");
  object =
      field (codes "spec") (object (field (codes "gatewayClassName") (text (codes "nginx")) end))
        (field (codes "status") (object status) end);
}

-- The conditions are gone, the addresses are not.
removed_test :
    (trim_unstructured sample gateway).object
    ≡ field (codes "spec") (object (field (codes "gatewayClassName") (text (codes "nginx")) end)) (
        field
          (codes "status")
          (object (
            field
              (codes "addresses")
              (slice (cons (object (field (codes "value") (text (codes "10.0.0.1")) end)) nil))
              end))
          end)
unfolding trim_unstructured remove modify delete
removed_test = refl

emit_custom-trim_example :
    (emit_gateway_api sample (codes "ADD") gateways (trim_unstructured sample gateway) empty_log
      ≡ emit_gateway_api sample (codes "ADD") gateways gateway empty_log)
    × (route_backends sample (trim_unstructured sample gateway) ≡ route_backends sample gateway)
    × (emit_traefik sample (codes "ADD") gateways (trim_unstructured sample gateway) empty_log
        ≡ emit_traefik sample (codes "ADD") gateways gateway empty_log)
    × (traefik_backends sample (trim_unstructured sample gateway) ≡ traefik_backends sample gateway)
emit_custom-trim_example =
    emit_custom-trim sample (codes "ADD") gateways gateway empty_log sample-IsRemoving
