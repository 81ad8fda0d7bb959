-- ===== src/Jobs/Submission.antt =====
-- What a submission has written, by how it ended.
use k8s_stack_tooling.Prelude.{
  Bool-cases, inl, inr, String, true, Option, none, some, List, [], ◌∷◌, ◌++◌, ◌≡◌, ◌≢◌, ◌↔◌, refl,
  ◌∙◌, arith, ◌||◌, eq_iff, ok, err,
}
use k8s_stack_tooling.Value.{Fields}
use k8s_stack_tooling.Jobs.Submit.{
  after_call, check_version, complete_identity, ConfigMapVersion, Version, submitted, uncertain,
  Phase, snapshot, job, ownership, complete, Submission, Call, read_config_map, create_config_map,
  create_job, patch_config_map, Cluster, Run, require_configmap_versions, checked_metadata,
  metadata_of, attach, after_job, after_snapshot, submit_checked, and_then, submit_named,
  submit_with_metadata, submit_snapshot_job, is_empty,
}

-- The calls that change the cluster.
abbrev pub writes : List Call → List Call
writes [] = []
writes (read_config_map n ns ∷ cs) = writes cs
writes (create_config_map ns n d ∷ cs) = create_config_map ns n d ∷ writes cs
writes (create_job ns b ∷ cs) = create_job ns b ∷ writes cs
writes (patch_config_map n ns v u ∷ cs) = patch_config_map n ns v u ∷ writes cs

-- Every input is in the cluster at the version that the caller has seen.
abbrev AllFresh : Cluster → List ConfigMapVersion → Type 0
AllFresh cluster [] = Unit
AllFresh cluster (i ∷ items) =
    (cluster.reads i.name i.namespace ≡ some (i.uid, i.resource_version)) × AllFresh cluster items

writes-append : (xs ys : List Call) → writes (xs ++ ys) ≡ writes xs ++ writes ys
writes-append [] ys = refl
writes-append (read_config_map n ns ∷ xs) ys = writes-append xs ys
writes-append (create_config_map ns n d ∷ xs) ys = rw (writes-append xs ys)
writes-append (create_job ns b ∷ xs) ys = rw (writes-append xs ys)
writes-append (patch_config_map n ns v u ∷ xs) ys = rw (writes-append xs ys)

require_writes_nothing :
    (cluster : Cluster) (inputs : List ConfigMapVersion)
    → writes (require_configmap_versions cluster inputs).0 ≡ []
unfolding require_configmap_versions
require_writes_nothing cluster [] = refl
require_writes_nothing cluster (i ∷ items) = ground (arith, require_writes_nothing cluster items)

check_version_ok :
    (item : ConfigMapVersion) (o : Option Version) (rest : Run Unit)
    → (check_version item o rest).1 ≡ ok tt
    → (o ≡ some (item.uid, item.resource_version)) × (rest.1 ≡ ok tt)
check_version_ok item none rest h = cc
check_version_ok item (some (uid, version)) rest h =
    ground (arith, eq_iff uid item.uid, eq_iff version item.resource_version)

require-AllFresh :
    (cluster : Cluster) (inputs : List ConfigMapVersion)
    → (require_configmap_versions cluster inputs).1 ≡ ok tt
    → AllFresh cluster inputs
unfolding require_configmap_versions
require-AllFresh cluster [] h = tt
require-AllFresh cluster (i ∷ items) h = elim (Bool-cases (complete_identity i)) [
  | inl whole ↦
      let (seen, more) =
        check_version_ok i (cluster.reads i.name i.namespace)
          (require_configmap_versions cluster items) (rw whole at h) in
      (seen, require-AllFresh cluster items more)
  | inr partial ↦ cc (rw partial at h)
]

-- What a submission that ended in this phase has written, in this order.
abbrev pub planned : Fields → Fields → Submission → Version → Phase → List Call
planned body data_of s v snapshot = create_config_map s.namespace s.name data_of ∷ []
planned body data_of s v job =
    create_config_map s.namespace s.name data_of ∷ create_job s.namespace body ∷ []
planned body data_of s v ownership =
    create_config_map s.namespace s.name data_of
    ∷ create_job s.namespace body
    ∷ patch_config_map s.name s.namespace v s.uid
    ∷ []
planned body data_of s v complete =
    create_config_map s.namespace s.name data_of
    ∷ create_job s.namespace body
    ∷ patch_config_map s.name s.namespace v s.uid
    ∷ []

-- How a submission has ended: its writes are those of its phase, it is "submitted" exactly when the
-- last phase was reached, and then the cluster has confirmed each write.
pub record IsFaithful (cluster : Cluster) (body data_of : Fields) (calls : List Call)
    (s : Submission) : Type 0 where
  pub version : Version
  pub written : writes calls ≡ planned body data_of s version s.phase
  pub status : (s.status ≡ submitted) ↔ (s.phase ≡ complete)
  pub confirmed :
      s.phase ≡ complete
      → (cluster.creates_config_map s.namespace s.name ≡ some version)
        × (cluster.creates_job s.namespace body ≡ some s.uid)
        × (cluster.patches s.name s.namespace ≡ true)

abbrev pub Reports : Cluster → Fields → Fields → List ConfigMapVersion → Run Submission → Type 0
Reports cluster body data_of inputs (calls, err e) = writes calls ≡ []
Reports cluster body data_of inputs (calls, ok s) =
    AllFresh cluster inputs × IsFaithful cluster body data_of calls s

module _ (cluster : Cluster) (body data_of : Fields) (namespace name : String) where
  abbrev Submits : Run Submission → Type 0
  Submits (calls, err e) = ⊥
  Submits (calls, ok s) = IsFaithful cluster body data_of calls s

  abbrev all_calls : Version → String → List Call
  all_calls v uid =
      create_config_map namespace name data_of
      ∷ create_job namespace body
      ∷ patch_config_map name namespace v uid
      ∷ []

  -- A submission that ends early.
  abbrev ended : Phase → String → Submission
  ended phase uid = record {
    namespace = namespace;
    name = name;
    status = uncertain;
    phase = phase;
    uid = uid;
  }

  ended-IsFaithful :
      (calls : List Call) (v : Version) (phase : Phase) (uid : String)
      → phase ≢ complete
      → writes calls ≡ planned body data_of (ended phase uid) v phase
      → IsFaithful cluster body data_of calls (ended phase uid)
  ended-IsFaithful calls v phase uid early w = record {
    version = v;
    written = w;
    status = (λ e. cc, λ e. absurd (early e));
    confirmed = λ e. absurd (early e);
  }

  attach-Submits :
      (v : Version) (uid : String)
      → cluster.creates_config_map namespace name ≡ some v
      → cluster.creates_job namespace body ≡ some uid
      → Submits (
          after_call (create_config_map namespace name data_of) (
            after_call
              (create_job namespace body)
              (attach cluster body data_of namespace name v uid)))
  unfolding attach
  attach-Submits v uid made started = elim (Bool-cases (cluster.patches name namespace)) [
    | inl patched ↦ rw patched (record {
      version = v;
      written = refl;
      status = (λ e. refl, λ e. refl);
      confirmed = λ e. (made, started, patched);
    })
    | inr refused ↦ rw refused (ended-IsFaithful (all_calls v uid) v ownership uid (λ e. cc) refl)
  ]

  job-Submits :
      (v : Version) (o : Option String)
      → cluster.creates_config_map namespace name ≡ some v
      → cluster.creates_job namespace body ≡ o
      → Submits (
          after_call (create_config_map namespace name data_of) (
            after_call
              (create_job namespace body)
              (after_job cluster body data_of namespace name v o)))
  job-Submits v none made started = ended-IsFaithful _ v job "" (λ e. cc) refl
  job-Submits v (some uid) made started = elim (Bool-cases (is_empty uid)) [
    | inl empty ↦ rw empty (ended-IsFaithful _ v job "" (λ e. cc) refl)
    | inr named ↦ rw named (attach-Submits v uid made started)
  ]

  snapshot-Submits :
      (o : Option Version)
      → cluster.creates_config_map namespace name ≡ o
      → Submits (
          after_call
            (create_config_map namespace name data_of)
            (after_snapshot cluster body data_of namespace name o))
  snapshot-Submits none made = ended-IsFaithful _ ("", "") snapshot "" (λ e. cc) refl
  snapshot-Submits (some (uid, version)) made =
      elim (Bool-cases (is_empty uid || is_empty version)) [
        | inl empty ↦ rw empty (ended-IsFaithful _ ("", "") snapshot "" (λ e. cc) refl)
        | inr named ↦
            rw named (job-Submits (uid, version) (cluster.creates_job namespace body) made refl)
      ]

  submit_checked-Submits : Submits (submit_checked cluster body data_of namespace name)
  unfolding submit_checked
  submit_checked-Submits = snapshot-Submits (cluster.creates_config_map namespace name) refl

  IsFaithful-behind :
      (reads calls : List Call) (s : Submission)
      → writes reads ≡ []
      → IsFaithful cluster body data_of calls s
      → IsFaithful cluster body data_of (reads ++ calls) s
  IsFaithful-behind reads calls s nothing f = record {
    version = f.version;
    written = writes-append reads calls ∙ rw nothing f.written;
    status = f.status;
    confirmed = f.confirmed;
  }

  and_then-Reports :
      (inputs : List ConfigMapVersion) (first : Run Unit) (rest : Run Submission)
      → writes first.0 ≡ []
      → (first.1 ≡ ok tt → AllFresh cluster inputs)
      → Submits rest
      → Reports cluster body data_of inputs (and_then first rest)
  and_then-Reports inputs (calls, err e) rest nothing fresh h = nothing
  and_then-Reports inputs (calls, ok u) (more, ok s) nothing fresh h =
      (fresh refl, IsFaithful-behind calls more s nothing h)
  and_then-Reports inputs (calls, ok u) (more, err e) nothing fresh h = absurd h

-- A submission that raises has written nothing. One that returns had inputs at the versions that the
-- caller has seen; it has written the snapshot, the Job and the patch once each, in this order, up to
-- its phase; it is "submitted" exactly when it is "complete", and then each write was confirmed and
-- the patch names the version of the snapshot and the uid of the Job.
pub submit_snapshot_job-Reports :
    (cluster : Cluster) (body data_of : Fields) (inputs : List ConfigMapVersion)
    → Reports cluster body data_of inputs (submit_snapshot_job cluster body data_of inputs)
unfolding submit_snapshot_job
submit_snapshot_job-Reports cluster body data_of inputs = with_metadata (metadata_of body)
  where
    named :
        (o : Option (String × String))
        → Reports cluster body data_of inputs (submit_named cluster body data_of inputs o)
    named none = refl
    named (some (namespace, name)) =
        and_then-Reports cluster body data_of namespace name inputs
          (require_configmap_versions cluster inputs)
          (submit_checked cluster body data_of namespace name)
          (require_writes_nothing cluster inputs) (require-AllFresh cluster inputs)
          (submit_checked-Submits cluster body data_of namespace name)

    with_metadata :
        (o : Option Fields)
        → Reports cluster body data_of inputs (submit_with_metadata cluster body data_of inputs o)
    with_metadata none = refl
    with_metadata (some m) = named (checked_metadata body m)
