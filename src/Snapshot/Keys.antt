-- ===== src/Snapshot/Keys.antt =====
-- The keys in the snapshot of the pods' containers, against the records and the pods.
use mathlib.Core.List.{Perm, perm_middle, map-append}
use mathlib.Core.List.Perm
use scam.Base.{
  ℕ, some, ◌+◌, ◌≡◌, refl, sym, ap, ap₂, ◌∙◌, inl, inr, Bool, List, [], ◌∷◌, ◌++◌, map, length,
  length-map, length-append, Text, codes, text_beq, if◌then◌else◌, Bool-cases,
}
use scam.Kube.{Pod, Container, ContainerStatus}
use scam.Emit.{Attrs, Log, Draft, stamped, plain, text, put_all}
use scam.Sort.{insert, sort_slice}
use scam.Pod.{ContainerRef, refs_of, collect_containers, container_attrs}
use scam.Pod.Changes.{draft}
use scam.Pod.Owner.{ReplicaSets, pod_owner, less_pod}
use scam.Snapshot.{listed, container_keys, pod_keys, emit_container_snapshot}
use scam.Snapshot.Drafts.{drafts_of, sum_of, dump_record, keys_record}
use scam.Snapshot.Kinds.{pods-Logs}

swap_blocks : {A : Type 0} (a b c : List A) → Perm (a ++ (b ++ c)) (b ++ (a ++ c))
swap_blocks [] b c = Perm.refl _
swap_blocks (x ∷ a) b c =
    Perm.trans (Perm.cons x (swap_blocks a b c)) (Perm.symm (perm_middle b (a ++ c)))

pod_keys-insert :
    (less : Pod → Pod → Bool) (p : Pod) (ps : List Pod)
    → Perm (pod_keys (insert less p ps)) (pod_keys (p ∷ ps))
unfolding insert pod_keys
pod_keys-insert less p [] = Perm.refl _
pod_keys-insert less p (q ∷ ps) = elim (Bool-cases (less p q)) [
  | inl e ↦ rw e (Perm.refl _)
  | inr e ↦ rw e (
      Perm.trans (Perm.append_left (keys q) (pod_keys-insert less p ps))
        (swap_blocks (keys q) (keys p) (pod_keys ps)))
]
  where
    keys : Pod → List Text
    keys r = container_keys r.meta.uid (collect_containers r)

pod_keys-sort :
    (less : Pod → Pod → Bool) (ps : List Pod) → Perm (pod_keys (sort_slice less ps)) (pod_keys ps)
unfolding sort_slice pod_keys
pod_keys-sort less [] = Perm.refl _
pod_keys-sort less (p ∷ ps) =
    Perm.trans (pod_keys-insert less p (sort_slice less ps))
      (Perm.append_left (container_keys p.meta.uid (collect_containers p)) (pod_keys-sort less ps))

-- What the spec of a pod says: one key for each container of any kind.
abbrev pub pod_spec_keys : Pod → List Text
pod_spec_keys p =
    map (λ c. p.meta.uid ++ b'/' ∷ c.name)
      (p.spec.init_containers ++ (p.spec.containers ++ p.spec.ephemeral_containers))

abbrev pub spec_keys : List Pod → List Text
spec_keys [] = []
spec_keys (p ∷ ps) = pod_spec_keys p ++ spec_keys ps

-- The text that stands under a name in a record.
abbrev pub read : Text → Attrs → Text
read k [] = []
read k ((name, text v) ∷ attrs) = if text_beq name k then v else read k attrs
read k ((name, _) ∷ attrs) = read k attrs

-- The key of a container's record, from the pod's uid and the container's name in it.
abbrev pub join_key : Draft → Text
join_key (stamped message kind attrs) =
    read (codes "pod_uid") attrs ++ b'/' ∷ read (codes "container") attrs
join_key (plain message attrs) = []

refs_of-keys :
    (kind uid : Text) (statuses : List ContainerStatus) (cs : List Container)
    → map (λ c. uid ++ b'/' ∷ c.name) (refs_of kind statuses cs)
      ≡ map (λ c. uid ++ b'/' ∷ c.name) cs
unfolding refs_of
refs_of-keys kind uid statuses [] = refl
refs_of-keys kind uid statuses (c ∷ cs) =
    ap (◌∷◌ (uid ++ b'/' ∷ c.name)) (refs_of-keys kind uid statuses cs)

pod_keys-spec : (ps : List Pod) → pod_keys ps ≡ spec_keys ps
unfolding pod_keys collect_containers
pod_keys-spec [] = refl
pod_keys-spec (p ∷ ps) = ap₂ ◌++◌ (one p) (pod_keys-spec ps)
  where
    one : (q : Pod) → container_keys q.meta.uid (collect_containers q) ≡ pod_spec_keys q
    one q =
        map-append _ _ _
        ∙ ap₂ ◌++◌ (refs_of-keys (codes "init") q.meta.uid _ q.spec.init_containers) (
            map-append _ _ _
            ∙ ap₂ ◌++◌ (refs_of-keys (codes "main") q.meta.uid _ q.spec.containers)
                (refs_of-keys (codes "ephemeral") q.meta.uid _ q.spec.ephemeral_containers)
            ∙ sym (map-append _ q.spec.containers q.spec.ephemeral_containers))
        ∙ sym (map-append _ q.spec.init_containers _)

record_keys :
    (sets : ReplicaSets) (p : Pod) (owner : Text × Text) (cs : List ContainerRef)
    → map join_key (map (draft (codes "INITIAL") p owner) cs) ≡ container_keys p.meta.uid cs
unfolding container_attrs
record_keys sets p owner [] = refl
record_keys sets p owner (c ∷ cs) =
    ap (◌∷◌ (p.meta.uid ++ b'/' ∷ c.name)) (record_keys sets p owner cs)

-- The records of the containers, and the keys that they hold.
abbrev pub container_records : ReplicaSets → List Pod → List Draft
container_records sets ps =
    drafts_of (λ p. map (draft (codes "INITIAL") p (pod_owner sets p)) (collect_containers p)) ps

records-keys :
    (sets : ReplicaSets) (ps : List Pod) → map join_key (container_records sets ps) ≡ pod_keys ps
unfolding pod_keys
records-keys sets [] = refl
records-keys sets (p ∷ ps) =
    map-append join_key _ _
    ∙ ap₂ ◌++◌ (record_keys sets p (pod_owner sets p) (collect_containers p)) (records-keys sets ps)

records-count :
    (sets : ReplicaSets) (ps : List Pod)
    → length (container_records sets ps) ≡ sum_of (λ p. length (collect_containers p)) ps
records-count sets [] = refl
records-count sets (p ∷ ps) =
    length-append (map (draft (codes "INITIAL") p (pod_owner sets p)) (collect_containers p)) _
    ∙ ap₂ ◌+◌ (length-map (draft (codes "INITIAL") p (pod_owner sets p)) (collect_containers p))
        (records-count sets ps)

-- The snapshot of the pods logs records of their containers, then the counts, and then a SNAPSHOT
-- line whose resource_keys are the keys that those records hold, in their order: pod_uid, a slash,
-- and the container's name. Up to the order they are those of all containers, init and ephemeral
-- ones too, in the specs of the pods that the informer held, each as often as it is there.
pub emit_container_snapshot-keys :
    (sets : ReplicaSets) (pods : List Pod) (id : Text) (l : Log)
    → (rs : List Draft) × (cached : ℕ) × (emit_container_snapshot sets (listed pods) id l
        ≡ put_all
            (rs
              ++ dump_record (codes "Pod") cached (length rs)
                ∷ keys_record id (codes "Container") (map join_key rs)
                ∷ [])
            l)
      × Perm (map join_key rs) (spec_keys pods)
emit_container_snapshot-keys sets pods id l =
    let sorted = sort_slice (less_pod sets) pods in
    let rs = container_records sets sorted in
    (
      rs,
      length sorted,
      rw (records-count sets sorted, records-keys sets sorted)
          (pods-Logs sets (some (listed pods)) id l),
      rw (records-keys sets sorted, ← pod_keys-spec pods) (pod_keys-sort (less_pod sets) pods),
    )
