-- ===== src/Watch/Stream.antt =====
-- The stream as a whole: what any sequence of notices does to the log.
use scam.Base.{◌≡◌, refl, Bool, false, List, [], ◌∷◌}
use scam.Emit.{Log}
use scam.Emit.Ids.{Extends, Extends-refl, Extends-trans}
use scam.Informer.{on_events}
use scam.Watch.{
  Setting, Notified, of_pod, of_service, of_endpoint_slice, of_ingress, of_ingress_class,
  of_gateway, of_traefik, notify, notify_all,
}
use scam.Watch.Extending.{
  on_events-Extends, pods-IsExtending, services-IsExtending, endpoint_slices-IsExtending,
  ingresses-IsExtending, ingress_classes-IsExtending, gateway-IsExtending, traefik-IsExtending,
}

notify-Extends :
    (x : Setting) (synced : Bool) (n : Notified) (l : Log) → Extends l (notify x synced n l)
unfolding notify
notify-Extends x synced (of_pod n) l = on_events-Extends _ (pods-IsExtending x) synced n l
notify-Extends x synced (of_service n) l = on_events-Extends _ services-IsExtending synced n l
notify-Extends x synced (of_endpoint_slice n) l =
    on_events-Extends _ endpoint_slices-IsExtending synced n l
notify-Extends x synced (of_ingress n) l = on_events-Extends _ (ingresses-IsExtending x) synced n l
notify-Extends x synced (of_ingress_class n) l =
    on_events-Extends _ ingress_classes-IsExtending synced n l
notify-Extends x synced (of_gateway gvr n) l =
    on_events-Extends _ (gateway-IsExtending x gvr) synced n l
notify-Extends x synced (of_traefik gvr n) l =
    on_events-Extends _ (traefik-IsExtending x gvr) synced n l

-- Whatever notices come, of whatever kinds and in whatever order: what was logged stays in place,
-- and the new records take consecutive event ids.
pub notify_all-Extends :
    (x : Setting) (synced : Bool) (ns : List Notified) (l : Log)
    → Extends l (notify_all x synced ns l)
unfolding notify_all
notify_all-Extends x synced [] l = Extends-refl l
notify_all-Extends x synced (n ∷ ns) l =
    Extends-trans (notify-Extends x synced n l)
      (notify_all-Extends x synced ns (notify x synced n l))

closed : (x : Setting) (n : Notified) (l : Log) → notify x false n l ≡ l
unfolding notify on_events
closed x (of_pod n) l = refl
closed x (of_service n) l = refl
closed x (of_endpoint_slice n) l = refl
closed x (of_ingress n) l = refl
closed x (of_ingress_class n) l = refl
closed x (of_gateway gvr n) l = refl
closed x (of_traefik gvr n) l = refl

-- Until the caches have synced, no notice of any kind logs anything or takes an event id.
pub notify_all-closed : (x : Setting) (ns : List Notified) (l : Log) → notify_all x false ns l ≡ l
unfolding notify_all
notify_all-closed x [] l = refl
notify_all-closed x (n ∷ ns) l = rw (closed x n l) (notify_all-closed x ns l)
