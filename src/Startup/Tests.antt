-- ===== src/Startup/Tests.antt =====
-- A start in a cluster with a Service, and the theorems at it.
use scam.Base.{
  ℕ, ◌≡◌, refl, Bool, true, false, none, some, List, [], ◌∷◌, codes, leb, Text, map, if◌then◌else◌,
  text_eq, ◌==◌, ◌++◌, arith,
}
use scam.Dynamic.Sample.{sample}
use scam.Emit.{number}
use scam.Emit.Ids.{Extends-refl}
use scam.Samples.{service, no_sets}
use scam.Snapshot.{listed}
use scam.Tuning.{Floats, env_int, env_float32}
use scam.Identity.Lookup.{resolve_ror_api_key, secret, no_self, unanswered}
use scam.Informer.{typed, added}
use scam.Watch.{Notified, of_service, notify_all}
use scam.Capture.{write}
use scam.Capture.Trim.{trim_space}
use scam.Push.Loop.{Loop, Tick, line, tick, start, run, step}
use scam.Race.Stream.{read_ids}
use scam.Race.Sample.{encode, read_id, encode-IsEncoder, setting, setting-IsUp}
use scam.Startup.Config.{Given, Clients, load_config, ror_endpoint, boot_identity}
use scam.Startup.{
  Process, streaming, limits, identified, announced, opened, watching, watched, main,
}
use scam.Startup.Outcomes.{no_log, Ends, checks, first_failure, main-Ends}
use scam.Startup.Delivered.{Consecutive, main-delivered, main-recovers}
use scam.Startup.Stream.{main-early}

abbrev floats : Floats
floats = record {
  Float32 = ℕ;
  parse_float = λ t. none;
  at_most_zero = λ n. leb n 0;
  shown = number;
}

abbrev clients : Bool → Clients
clients synced = record {
  in_cluster = true;
  build_config = λ path. none;
  clientset = none;
  dynamic_client = none;
  discovery_client = none;
  synced = synced;
}

-- Each variable but CALLCENTER_URL is empty.
abbrev given : Bool → Given
given synced = record {
  flags = record { kubeconfig = []; show_version = false };
  env = λ name. if name == codes "CALLCENTER_URL" then codes "http://spam.local/" else [];
  build = record { version = codes "dev"; commit = codes "unknown" };
  floats = floats;
  default_qps = 5;
  clients = clients synced;
  boot = record {
    secret = secret [];
    self = no_self (codes "timeout");
    cluster = unanswered (codes "timeout");
  };
  kube_system_uid = codes "uid-1";
  served = λ version. none;
  order = codes "v1" ∷ [];
  gvr_string = λ gvr. gvr.resource;
  lib = sample;
  replica_sets = no_sets;
  get_service = λ namespace name. some (service name);
  caches = record {
    pods = listed [];
    services = listed (service (codes "web") ∷ []);
    endpoint_slices = listed [];
    ingresses = listed [];
    ingress_classes = listed [];
    gateway = λ name. none;
    traefik = λ name. none;
  };
  snapshot_id = codes "07";
}

abbrev notices : List Notified
notices = of_service (added (typed (service (codes "cart")))) ∷ []

main-Ends_example :
    Ends (given false) (main (given false) notices) (first_failure (checks (given false)))
main-Ends_example = main-Ends (given false) notices refl

failure_test : first_failure (checks (given false)) ≡ some (codes "cache sync aborted")
unfolding load_config
failure_test = refl

main-early_example : main (given true) notices ≡ main (given true) []
main-early_example = main-early (given true) notices

abbrev identity : Process
identity = identified (given true) (limits (given true) no_log)

abbrev started : Process
started = record identity {
  log =
      opened (given true)
        (notify_all (watching (given true)) false notices (announced (given true) identity.log));
}

started_test : main (given true) notices ≡ streaming started
unfolding main watched load_config
started_test = refl

-- All that a start computes with.
boot_run : Unit {0}
unfolding main watched load_config limits identified announced opened trim_space env_int env_float32
    boot_identity ror_endpoint resolve_ror_api_key run start step write scam.Emit.report
    scam.Emit.emit scam.Emit.bumped notify_all scam.Discovery.discover_traefik
    scam.Discovery.by_resource scam.Discovery.traefik_best scam.Discovery.traefik_version
    scam.Discovery.over_resources scam.Discovery.discover_gateway_api
    scam.Discovery.gateway_versions scam.Sort.sort_slice scam.Sort.insert scam.Startup.resources_of
    scam.Snapshot.build_dynamic_snapshots scam.Snapshot.emit_full_snapshot
    scam.Snapshot.each_dynamic scam.Snapshot.emit_container_snapshot
    scam.Snapshot.emit_service_snapshot scam.Snapshot.emit_endpoint_slice_snapshot
    scam.Snapshot.emit_ingress_snapshot scam.Snapshot.emit_ingress_class_snapshot
    scam.Snapshot.dump_keys scam.Snapshot.uid_keys scam.Snapshot.pod_keys
    scam.Snapshot.emit_snapshot_keys scam.Informer.dump_sorted scam.Informer.emit_each
    scam.Informer.on_events scam.Watch.notify scam.Service.emit_service
boot_run = tt

from_test : started.captured_from ≡ some 0
unfolding boot_run
from_test = refl

abbrev lines : List Text
lines = map encode started.log.records

landed : Loop
unfolding boot_run
landed = elim (run setting start (map line lines)) [ none ↦ start | some lp ↦ lp ]

landed_test : run setting start (map line lines) ≡ some landed
unfolding boot_run landed
landed_test = refl

main-delivered_example :
    Consecutive 0
      (read_ids read_id landed.net.accepted ++ read_ids read_id landed.cap.buf)
      started.log.next_event_id
unfolding boot_run landed
main-delivered_example =
    main-delivered (given true) notices started started.log 0 encode read_id setting
      (map line lines) landed refl started_test from_test (Extends-refl started.log)
      encode-IsEncoder landed_test refl refl (omega arith)

abbrev next_tick : Tick
next_tick = record { now = 5; during = []; snapshot = []; done_at = 5 }

main-recovers_example :
    (next : Loop) × (step setting landed (tick next_tick) ≡ some next)
    × Consecutive 0 (read_ids read_id next.net.accepted) started.log.next_event_id
unfolding boot_run landed
main-recovers_example =
    main-recovers (given true) notices started started.log 0 encode read_id setting (map line lines)
      landed next_tick refl started_test from_test (Extends-refl started.log) encode-IsEncoder
      landed_test refl refl (omega arith) (setting-IsUp landed.net.calls)
