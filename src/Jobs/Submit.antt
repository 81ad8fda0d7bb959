-- ===== src/Jobs/Submit.antt =====
-- jobs.py: require_configmap_versions and submit_snapshot_job. What the cluster answers to each call
-- is a parameter; a call that raises one of `_API_ERRORS` is `none`. An absent uid or version and an
-- empty one are the empty text.
use k8s_stack_tooling.Prelude.{
  String, Bool, false, Option, none, some, List, [], ◌∷◌, ◌++◌, not, ◌&&◌, ◌||◌, if◌then◌else◌,
  str_eq, Result, ok, err,
}
use k8s_stack_tooling.Value.{str, obj, Fields, end, get_field, truthy}

-- JobError by its message, and what Python raises where `metadata` is no dict.
pub data JobError : Type 0 where
  incomplete_identity unverified_inputs changed_inputs unnamed_job bad_wait bad_budget
        attribute_error :
      JobError

pub record ConfigMapVersion : Type 0 where
  pub namespace : String
  pub name : String
  pub uid : String
  pub resource_version : String

-- The uid and the resource version of an object.
abbrev pub Version : Type 0
Version = String × String

pub data Status : Type 0 where
  submitted uncertain : Status

pub data Phase : Type 0 where
  snapshot job ownership complete : Phase

-- An empty `uid` stands for None.
pub record Submission : Type 0 where
  pub namespace : String
  pub name : String
  pub status : Status
  pub phase : Phase
  pub uid : String

-- A call of the cluster's API, with what it sends: the snapshot's data, the Job's body, the version
-- of the snapshot that the patch is bound to and the uid of its new owner.
pub data Call : Type 0 where
  read_config_map : String → String → Call
  create_config_map : String → String → Fields → Call
  create_job : String → Fields → Call
  patch_config_map : String → String → Version → String → Call

-- What the cluster answers.
pub record Cluster : Type 0 where
  pub reads : String → String → Option Version
  pub creates_config_map : String → String → Option Version
  pub creates_job : String → Fields → Option String
  pub patches : String → String → Bool

-- A run: the calls that were made, and how it ended.
abbrev pub Run : Type 0 → Type 0
Run A = List Call × Result JobError A

abbrev pub is_empty : String → Bool
is_empty s = str_eq s ""

abbrev pub complete_identity : ConfigMapVersion → Bool
complete_identity v =
    not (is_empty v.namespace)
    && not (is_empty v.name)
    && not (is_empty v.uid)
    && not (is_empty v.resource_version)

abbrev same_version : Version → ConfigMapVersion → Bool
same_version (uid, version) item = str_eq uid item.uid && str_eq version item.resource_version

-- One more call in front of a run.
abbrev pub after_call : {A : Type 0} → Call → Run A → Run A
after_call c (calls, r) = (c ∷ calls, r)

-- What follows the read of one input.
abbrev pub check_version : ConfigMapVersion → Option Version → Run Unit → Run Unit
check_version item none rest = ([], err unverified_inputs)
check_version item (some current) rest =
    if same_version current item then rest else ([], err changed_inputs)

unfoldable pub require_configmap_versions : Cluster → List ConfigMapVersion → Run Unit
require_configmap_versions cluster [] = ([], ok tt)
require_configmap_versions cluster (item ∷ items) =
    let rest = require_configmap_versions cluster items in
    if not (complete_identity item)
    then ([], err incomplete_identity)
    else after_call (read_config_map item.name item.namespace)
        (check_version item (cluster.reads item.name item.namespace) rest)

-- `metadata.get(key)` of a text
abbrev text_at : String → Fields → Option String
text_at key d = elim (get_field key d) [ some (str s) ↦ some s | _ ↦ none ]

abbrev is_text_at : String → String → Fields → Bool
is_text_at key s d = elim (text_at key d) [ none ↦ false | some t ↦ str_eq t s ]

abbrev nonempty_at : String → Fields → Option String
nonempty_at key d = elim (text_at key d) [
  | none ↦ none
  | some t ↦ if is_empty t then none else some t
]

abbrev truthy_at : String → Fields → Bool
truthy_at key d = elim (get_field key d) [ none ↦ false | some v ↦ truthy v ]

abbrev both : Option String → Option String → Option (String × String)
both (some a) (some b) = some (a, b)
both _ _ = none

-- The namespace and the name of a Job that the tests accept.
unfoldable pub checked_metadata : Fields → Fields → Option (String × String)
checked_metadata body metadata =
    if is_text_at "apiVersion" "batch/v1" body
      && is_text_at "kind" "Job" body
      && not (truthy_at "generateName" metadata)
      && not (truthy_at "ownerReferences" metadata)
    then both (nonempty_at "namespace" metadata) (nonempty_at "name" metadata)
    else none

-- `body.get("metadata", {})`; `none` is a value that has no `get`.
unfoldable pub metadata_of : Fields → Option Fields
metadata_of body = elim (get_field "metadata" body) [
  | none ↦ some end
  | some (obj m) ↦ some m
  | _ ↦ none
]

module _ (cluster : Cluster) (body : Fields) (data_of : Fields) (namespace name : String) where
  abbrev ends : Status → Phase → String → Run Submission
  ends status phase uid = (
    [],
    ok (record { namespace = namespace; name = name; status = status; phase = phase; uid = uid }),
  )

  unfoldable pub attach : Version → String → Run Submission
  attach version uid = after_call (patch_config_map name namespace version uid) (
      if cluster.patches name namespace
      then ends submitted complete uid
      else ends uncertain ownership uid)

  abbrev pub after_job : Version → Option String → Run Submission
  after_job version none = ends uncertain job ""
  after_job version (some uid) = if is_empty uid then ends uncertain job "" else attach version uid

  abbrev pub after_snapshot : Option Version → Run Submission
  after_snapshot none = ends uncertain snapshot ""
  after_snapshot (some (uid, version)) =
      if is_empty uid || is_empty version
      then ends uncertain snapshot ""
      else after_call (create_job namespace body)
          (after_job (uid, version) (cluster.creates_job namespace body))

  -- submit_snapshot_job from `phase = "snapshot"` on
  unfoldable pub submit_checked : Run Submission
  submit_checked =
      after_call (create_config_map namespace name data_of)
        (after_snapshot (cluster.creates_config_map namespace name))

-- After the inputs were checked.
abbrev pub and_then : Run Unit → Run Submission → Run Submission
and_then (calls, err e) rest = (calls, err e)
and_then (calls, ok u) (more, r) = (calls ++ more, r)

abbrev pub submit_named :
    Cluster → Fields → Fields → List ConfigMapVersion → Option (String × String) → Run Submission
submit_named cluster body data_of inputs none = ([], err unnamed_job)
submit_named cluster body data_of inputs (some (namespace, name)) =
    and_then (require_configmap_versions cluster inputs)
      (submit_checked cluster body data_of namespace name)

abbrev pub submit_with_metadata :
    Cluster → Fields → Fields → List ConfigMapVersion → Option Fields → Run Submission
submit_with_metadata cluster body data_of inputs none = ([], err attribute_error)
submit_with_metadata cluster body data_of inputs (some metadata) =
    submit_named cluster body data_of inputs (checked_metadata body metadata)

-- submit_snapshot_job
unfoldable pub submit_snapshot_job :
    Cluster → Fields → Fields → List ConfigMapVersion → Run Submission
submit_snapshot_job cluster body data_of inputs =
    submit_with_metadata cluster body data_of inputs (metadata_of body)
