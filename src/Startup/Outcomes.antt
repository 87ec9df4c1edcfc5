-- ===== src/Startup/Outcomes.antt =====
-- How main ends: the first failure in the order of its steps, or the stream behind the snapshot.
use scam.Base.{
  ℕ, ◌≤◌, ◌≡◌, refl, ap, sym, subst, inl, inr, ◌⊎◌, Bool, true, false, not, Option, none, some,
  List, [], ◌∷◌, ◌++◌, arith, Text, codes, text_beq, text_beq_iff, if◌then◌else◌, Bool-cases, All,
  length, length-append,
}
use scam.Capture.Trim.{trim_space}
use scam.Emit.{Record, Log, Attrs, report, put_all}
use scam.Emit.Quiet.{NoId, Quiet, Quiet-refl, Quiet-trans}
use scam.Snapshot.Envelope.{begin_record, sections, end_record, emit_full_snapshot-sections}
use scam.Watch.{Notified}
use scam.Watch.Stream.{notify_all-closed}
use scam.Startup.Config.{Given, load_config}
use scam.Startup.{
  Process, Ending, exited, streaming, identified, announced, resources_of, opened, watching,
  with_sync, watched, with_discovery, with_dynamic, with_clientset, with_config, unless_version,
  main,
}
use scam.Startup.Silence.{limits-Quiet, boot_identity-Quiet, announced-Quiet}

abbrev pub no_log : Log
no_log = record { next_event_id = 0; records = [] }

-- The steps that can fail, in order, with the message that is logged then.
abbrev pub is_some : Option Text → Bool
is_some none = false
is_some (some err) = true

abbrev last_checks : Given → List (Bool × Text)
last_checks b = (not b.clients.synced, codes "cache sync aborted") ∷ []

abbrev discovery_checks : Given → List (Bool × Text)
discovery_checks b =
    (is_some b.clients.discovery_client, codes "build discovery client") ∷ last_checks b

abbrev dynamic_checks : Given → List (Bool × Text)
dynamic_checks b =
    (is_some b.clients.dynamic_client, codes "build dynamic client") ∷ discovery_checks b

abbrev clientset_checks : Given → List (Bool × Text)
clientset_checks b = (is_some b.clients.clientset, codes "build clientset") ∷ dynamic_checks b

abbrev pub checks : Given → List (Bool × Text)
checks b =
    (is_some (load_config b.clients b.flags.kubeconfig), codes "load kube config")
    ∷ clientset_checks b

abbrev pub first_failure : List (Bool × Text) → Option Text
first_failure [] = none
first_failure ((failed, message) ∷ cs) = if failed then some message else first_failure cs

-- The log ends with the message, and no record in it has an event id.
pub record Stops (l : Log) (message : Text) : Type 0 where
  pub before : List Record
  pub attrs : Attrs
  pub last :
      l.records
      ≡ before ++ record { message = message; kind = []; event_id = none; attrs = attrs } ∷ []
  pub silent : All NoId before

-- The stream starts behind records without event ids, the initial snapshot, and a line. Where lines
-- are captured, they are captured from before the snapshot on.
pub record Starts (b : Given) (p : Process) : Type 0 where
  pub before : Log
  pub quiet : Quiet no_log before
  pub streamed :
      p.log
      ≡ report (codes "streaming events") [] (
          put_all
            (begin_record b.snapshot_id (codes "init")
              ∷ sections b.lib b.replica_sets
                  (resources_of b)
                  b.snapshot_id
                  (end_record b.snapshot_id ∷ []))
            before)
  pub captured :
      ((p.captured_from ≡ none) × (trim_space (b.env (codes "CALLCENTER_URL")) ≡ []))
      ⊎ ((k : ℕ) × (p.captured_from ≡ some k) × (k ≤ length before.records))

abbrev pub Ends : Given → Ending → Option Text → Type 0
Ends b (exited l) (some message) = Stops l message
Ends b (streaming p) none = Starts b p
Ends b _ _ = ⊥

report-Stops :
    (message : Text) (attrs : Attrs) (l : Log)
    → Quiet no_log l
    → Stops (report message attrs l) message
unfolding report
report-Stops message attrs l q = record {
  before = l.records;
  attrs = attrs;
  last = refl;
  silent = rw q.appended q.silent;
}

abbrev CapturedBy : Given → Process → List Record → Type 0
CapturedBy b p rs =
    ((p.captured_from ≡ none) × (trim_space (b.env (codes "CALLCENTER_URL")) ≡ []))
    ⊎ ((k : ℕ) × (p.captured_from ≡ some k) × (k ≤ length rs))

with_sync-Ends :
    (b : Given) (p : Process) (l : Log) (synced : Bool)
    → Quiet no_log l
    → CapturedBy b p l.records
    → Ends b
        (with_sync b p l synced)
        (first_failure ((not synced, codes "cache sync aborted") ∷ []))
unfolding opened
with_sync-Ends b p l false q c = report-Stops _ [] l q
with_sync-Ends b p l true q c = record {
  before = l;
  quiet = q;
  streamed = ap (report (codes "streaming events") []) (
      emit_full_snapshot-sections b.lib b.replica_sets (resources_of b) b.snapshot_id (codes "init")
        l);
  captured = c;
}

later_captured :
    (b : Given) (p : Process) {l l' : Log}
    → Quiet l l'
    → CapturedBy b p l.records
    → CapturedBy b p l'.records
later_captured b p {l} q c = elim c [
  | inl nothing ↦ inl nothing
  | inr (k, found, low) ↦
      inr (k, found, omega (arith, low, ap length q.appended, length-append l.records q.new))
]

captured_lem :
    (url : Text) (rs : List Record)
    → let from : Option ℕ = if text_beq url [] then none else some (length rs) in
      ((from ≡ none) × (url ≡ [])) ⊎ ((k : ℕ) × (from ≡ some k) × (k ≤ length rs))
captured_lem url rs = elim (Bool-cases (text_beq url [])) [
  | inl e ↦ rw e (inl (refl, (text_beq_iff url []).0 e))
  | inr e ↦ rw e (inr (length rs, refl, omega arith))
]

module _ (b : Given) (early : List Notified) where
  watched-Ends :
      (p : Process)
      → Quiet no_log p.log
      → CapturedBy b p p.log.records
      → Ends b (watched b early p) (first_failure (last_checks b))
  unfolding watched
  watched-Ends p q c =
      let later = announced-Quiet b p.log in
      subst (λ l. Ends b (with_sync b p l b.clients.synced) (first_failure (last_checks b)))
        (sym (notify_all-closed (watching b) early (announced b p.log)))
        (with_sync-Ends b p (announced b p.log) b.clients.synced (Quiet-trans q later)
          (later_captured b p later c))

  discovery-Ends :
      (p : Process) (o : Option Text)
      → Quiet no_log p.log
      → CapturedBy b p p.log.records
      → Ends b
          (with_discovery b early p o)
          (first_failure ((is_some o, codes "build discovery client") ∷ last_checks b))
  discovery-Ends p (some err) q c = report-Stops _ _ p.log q
  discovery-Ends p none q c = watched-Ends p q c

  dynamic-Ends :
      (p : Process) (o : Option Text)
      → Quiet no_log p.log
      → CapturedBy b p p.log.records
      → Ends b
          (with_dynamic b early p o)
          (first_failure ((is_some o, codes "build dynamic client") ∷ discovery_checks b))
  dynamic-Ends p (some err) q c = report-Stops _ _ p.log q
  dynamic-Ends p none q c = discovery-Ends p b.clients.discovery_client q c

  identified-captured : (l : Log) → CapturedBy b (identified b l) (identified b l).log.records
  unfolding identified
  identified-captured l = captured_lem (trim_space (b.env (codes "CALLCENTER_URL"))) _

  clientset-Ends :
      (l : Log) (o : Option Text)
      → Quiet no_log l
      → Ends b
          (with_clientset b early l o)
          (first_failure ((is_some o, codes "build clientset") ∷ dynamic_checks b))
  unfolding identified
  clientset-Ends l (some err) q = report-Stops _ _ l q
  clientset-Ends l none q =
      dynamic-Ends (identified b l) b.clients.dynamic_client
        (Quiet-trans q (boot_identity-Quiet b.env b.boot l)) (identified-captured l)

  config-Ends :
      (o : Option Text)
      → Ends b
          (with_config b early o)
          (first_failure ((is_some o, codes "load kube config") ∷ clientset_checks b))
  config-Ends (some err) = report-Stops _ _ no_log (Quiet-refl no_log)
  config-Ends none = clientset-Ends _ b.clients.clientset (limits-Quiet b no_log)

-- Unless it only prints its version, main exits with the message of the first step that fails, in
-- the order of the steps, and then no record has an event id; or, where none fails, it streams,
-- behind records without event ids, the initial snapshot, and a line. Where CALLCENTER_URL is set,
-- the capture starts before the snapshot.
pub main-Ends :
    (b : Given) (early : List Notified)
    → b.flags.show_version ≡ false
    → Ends b (main b early) (first_failure (checks b))
unfolding main
main-Ends b early e =
    subst (λ v. Ends b (unless_version b early v) (first_failure (checks b))) (sym e)
      (config-Ends b early (load_config b.clients b.flags.kubeconfig))
