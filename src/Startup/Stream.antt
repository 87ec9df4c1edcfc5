-- ===== src/Startup/Stream.antt =====
-- What main does with the notices of the informers: the gate before the sync.
use scam.Base.{◌≡◌, refl, ap, Bool, true, false, Option, none, some, List, [], Text}
use scam.Emit.{Log}
use scam.Watch.{Notified, notify_all}
use scam.Watch.Stream.{notify_all-closed}
use scam.Startup.Config.{Given, load_config}
use scam.Startup.{
  Process, streaming, identified, announced, watching, with_sync, watched, with_discovery,
  with_dynamic, with_clientset, unless_version, main,
}
use scam.Startup.Outcomes.{Ends, Starts}

with_discovery-early :
    (b : Given) (early : List Notified) (p : Process) (o : Option Text)
    → with_discovery b early p o ≡ with_discovery b [] p o
unfolding watched notify_all
with_discovery-early b early p (some err) = refl
with_discovery-early b early p none =
    ap (λ l. with_sync b p l b.clients.synced)
      (notify_all-closed (watching b) early (announced b p.log))

with_dynamic-early :
    (b : Given) (early : List Notified) (p : Process) (o : Option Text)
    → with_dynamic b early p o ≡ with_dynamic b [] p o
with_dynamic-early b early p (some err) = refl
with_dynamic-early b early p none = with_discovery-early b early p b.clients.discovery_client

with_clientset-early :
    (b : Given) (early : List Notified) (l : Log) (o : Option Text)
    → with_clientset b early l o ≡ with_clientset b [] l o
with_clientset-early b early l (some err) = refl
with_clientset-early b early l none =
    with_dynamic-early b early (identified b l) b.clients.dynamic_client

unless_version-early :
    (b : Given) (early : List Notified) (v : Bool) (o : Option Text)
    → load_config b.clients b.flags.kubeconfig ≡ o
    → unless_version b early v ≡ unless_version b [] v
unless_version-early b early true o e = refl
unless_version-early b early false (some err) e = rw e refl
unless_version-early b early false none e =
    rw e (with_clientset-early b early _ b.clients.clientset)

-- What the informers report before the caches have synced makes no difference to how main ends or
-- to what it has logged.
pub main-early : (b : Given) (early : List Notified) → main b early ≡ main b []
unfolding main
main-early b early = unless_version-early b early b.flags.show_version _ refl

pub Ends-streaming :
    (b : Given) (p : Process) (m : Option Text) → Ends b (streaming p) m → Starts b p
Ends-streaming b p none s = s
Ends-streaming b p (some message) s = absurd s
