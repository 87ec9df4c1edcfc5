-- ===== src/Startup.antt =====
-- `main` of cmd/scam/main.go: how the process starts, up to the live stream, and how it ends.
-- `Startup.Config` has what it is given and its first steps.
pub mod Config
mod Silence
mod Outcomes
mod Stream
mod Delivered
mod Tests
use scam.Base.{
  ℕ, Bool, true, false, not, Option, none, some, List, [], ◌∷◌, ◌++◌, Text, codes, length,
  if◌then◌else◌, text_eq, ◌==◌,
}
use scam.Capture.Trim.{trim_space}
use scam.Emit.{Log, text, report}
use scam.Banner.{print_banner}
use scam.Tuning.{env_int, env_float32}
use scam.Discovery.{discover_gateway_api, discover_traefik}
use scam.Snapshot.{SnapshotResources, build_dynamic_snapshots, emit_full_snapshot}
use scam.Identity.{
  IdentityAttr, resolve_cluster_name, resolve_cluster_id, resolve_environment, cluster_attr_set,
}
use scam.Identity.Lookup.{RorIdentity}
use scam.Watch.{Setting, Notified, notify_all}
use Config.{Given, load_config, boot_identity, detected, endpoint_at}

-- What a process has when its stream starts. `captured_from` is how many records were logged
-- before the capture was installed, with no value where there is none; then there are no endpoints
-- either.
pub record Process : Type 0 where
  pub log : Log
  pub ror : RorIdentity
  pub cluster_attrs : List IdentityAttr
  pub banner : Option (List Text)
  pub captured_from : Option ℕ
  pub push_endpoint : Text
  pub heartbeat_endpoint : Text

-- How main ends, or that it streams: the version was printed, or the process exited with 1.
pub data Ending : Type 0 where
  printed : Text → Ending
  exited : Log → Ending
  streaming : Process → Ending

abbrev pub fatal : Text → Text → Log → Ending
fatal message err l = exited (report message ((codes "err", text err) ∷ []) l)

-- The clients' limits: only what they log matters here.
unfoldable pub limits : Given → Log → Log
limits b l =
    let (qps, m) =
      env_float32 b.floats (codes "KUBE_CLIENT_QPS") (b.env (codes "KUBE_CLIENT_QPS")) b.default_qps
        l in
    (env_int (codes "KUBE_CLIENT_BURST") (b.env (codes "KUBE_CLIENT_BURST")) 10 m).1

-- The identity, the loggers and the banner.
unfoldable pub identified : Given → Log → Process
identified b l =
    let callcenter = trim_space (b.env (codes "CALLCENTER_URL")) in
    let (ror, m) = boot_identity b.env b.boot l in
    let name = resolve_cluster_name b.env ror.name in
    let id = resolve_cluster_id b.env b.kube_system_uid in
    let environment = resolve_environment b.env ror.environment in
    record {
      log = m;
      ror = ror;
      cluster_attrs = cluster_attr_set b.build name id environment ror;
      banner = print_banner (record {
        cluster_name = name;
        cluster_id = id;
        environment = environment;
        ror_slug = ror.slug;
        ror_uid = ror.uid;
        callcenter = callcenter;
        version = b.build.version;
        commit = b.build.commit;
      });
      captured_from = if callcenter == [] then none else some (length m.records);
      push_endpoint =
          if callcenter == [] then [] else endpoint_at callcenter (codes "/api/scam/callcenter");
      heartbeat_endpoint =
          if callcenter == [] then [] else endpoint_at callcenter (codes "/api/scam/heartbeat");
    }

-- The lines before the wait for the caches.
unfoldable pub announced : Given → Log → Log
announced b l =
    let l1 =
      detected (codes "gateway API detected") (codes "gateway API CRDs not installed; skipping")
        (discover_gateway_api b.served b.order) l in
    let l2 =
      detected (codes "traefik CRDs detected") (codes "traefik CRDs not installed; skipping")
        (discover_traefik b.served) l1 in
    report (codes "waiting for cache sync") [] l2

unfoldable pub resources_of : Given → SnapshotResources
resources_of b = record {
  pods = some b.caches.pods;
  services = some b.caches.services;
  endpoint_slices = some b.caches.endpoint_slices;
  ingresses = some b.caches.ingresses;
  ingress_classes = some b.caches.ingress_classes;
  gateway_api =
      build_dynamic_snapshots b.gvr_string (discover_gateway_api b.served b.order) b.caches.gateway;
  traefik = build_dynamic_snapshots b.gvr_string (discover_traefik b.served) b.caches.traefik;
}

-- The initial snapshot, once the gate is open.
unfoldable pub opened : Given → Log → Log
opened b l =
    report (codes "streaming events") []
      (emit_full_snapshot b.lib b.replica_sets (resources_of b) b.snapshot_id (codes "init") l)

abbrev pub watching : Given → Setting
watching b = record { lib = b.lib; replica_sets = b.replica_sets; services = some b.get_service }

-- Behind the wait for the caches, by whether they have synced.
abbrev pub with_sync : Given → Process → Log → Bool → Ending
with_sync b p l false = exited (report (codes "cache sync aborted") [] l)
with_sync b p l true = streaming (record p { log = opened b l })

-- From the informers on. `early` are the notices before the caches have synced.
unfoldable pub watched : Given → List Notified → Process → Ending
watched b early p =
    with_sync b p (notify_all (watching b) false early (announced b p.log)) b.clients.synced

abbrev pub with_discovery : Given → List Notified → Process → Option Text → Ending
with_discovery b early p (some err) = fatal (codes "build discovery client") err p.log
with_discovery b early p none = watched b early p

abbrev pub with_dynamic : Given → List Notified → Process → Option Text → Ending
with_dynamic b early p (some err) = fatal (codes "build dynamic client") err p.log
with_dynamic b early p none = with_discovery b early p b.clients.discovery_client

abbrev pub with_clientset : Given → List Notified → Log → Option Text → Ending
with_clientset b early l (some err) = fatal (codes "build clientset") err l
with_clientset b early l none = with_dynamic b early (identified b l) b.clients.dynamic_client

abbrev pub with_config : Given → List Notified → Option Text → Ending
with_config b early (some err) =
    fatal (codes "load kube config") err (record { next_event_id = 0; records = [] })
with_config b early none =
    with_clientset b early (limits b (record { next_event_id = 0; records = [] }))
      b.clients.clientset

-- By the flag -version.
abbrev pub unless_version : Given → List Notified → Bool → Ending
unless_version b early true =
    printed (codes "scam " ++ (b.build.version ++ (codes " (" ++ (b.build.commit ++ codes ")\n"))))
unless_version b early false = with_config b early (load_config b.clients b.flags.kubeconfig)

unfoldable pub main : Given → List Notified → Ending
main b early = unless_version b early b.flags.show_version
