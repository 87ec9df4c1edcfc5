-- ===== src/Watch/Tests.antt =====
-- Notices of a Service and an Ingress, and the theorems at them.
use scam.Base.{◌≡◌, true, some, codes}
use scam.Kube.{Unstructured, end}
use scam.Emit.{stamped, put_all}
use scam.Dynamic.Sample.{sample, plain_meta}
use scam.Samples.{service, ingress, no_sets, empty_log}
use scam.Ingress.{ingress_attrs}
use scam.Refs.{Services, ingress_backends, traefik_backends}
use scam.Gateway.{Gvr}
use scam.Traefik.{traefik_kind_from_resource, traefik_attrs}
use scam.Informer.{typed, other, added, updated}
use scam.Watch.{of_ingress, of_traefik, notify}
use scam.Watch.Exposed.{setting, exposing, notify-exposing}

abbrev get : Services
get namespace name = some (service name)

abbrev routes : Gvr
routes = record {
  group = codes "traefik.io";
  version = codes "v1alpha1";
  resource = codes "ingressroutes";
}

abbrev route : Unstructured
route = record { meta = plain_meta (codes "shop") (codes "r"); object = end }

notify-exposing_example :
    (notify
        (setting sample no_sets get)
        true
        (of_ingress (added (typed (ingress (codes "web")))))
        empty_log
      ≡ put_all
          (exposing
            (stamped (codes "ADD") (codes "Ingress") (ingress_attrs (ingress (codes "web"))))
            get
            (ingress_backends (ingress (codes "web"))))
          empty_log)
    × (notify
          (setting sample no_sets get)
          true
          (of_ingress (updated other (typed (ingress (codes "web")))))
          empty_log
        ≡ put_all
            (exposing
              (stamped (codes "UPDATE") (codes "Ingress") (ingress_attrs (ingress (codes "web"))))
              get
              (ingress_backends (ingress (codes "web"))))
            empty_log)
    × (notify (setting sample no_sets get) true (of_traefik routes (added (typed route))) empty_log
        ≡ put_all
            (exposing
              (stamped
                (codes "ADD")
                (traefik_kind_from_resource routes.resource)
                (traefik_attrs sample routes route))
              get
              (traefik_backends sample route))
            empty_log)
notify-exposing_example =
    notify-exposing sample no_sets get (ingress (codes "web")) other routes route empty_log
