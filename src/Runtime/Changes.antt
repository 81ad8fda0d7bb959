-- ===== src/Runtime/Changes.antt =====
-- pending.py. The state is what deployment-changes.json holds, `none` where it is not there; saving
-- it is one replacement of the file. Its `targets` is a dict of dicts of snapshots.
pub mod Points
pub mod Pending
use k8s_stack_tooling.Prelude.{
  String, Bool, true, false, Option, none, some, List, [], ◌∷◌, ◌++◌, not, ◌&&◌, is_some,
  if◌then◌else◌, str_eq, str_append, Result, ok, err, ◌>>=◌, Dict, get_item, set_item, set_default,
  value_or, update_items, keys_of, map,
}
use text.Mathlib.Text.{starts_with}
use k8s_stack_tooling.Runtime.Assignments.{
  Assignment, Deployment, Preset, DeploymentError, PackageData, recipe, load_deployment,
}

-- A snapshot: `{}`, `{"enabled": False}`, or one with its model, variant, service and runtime
-- options, by their texts. The names of the options of an alias come in one order.
pub data Snapshot : Type 0 where
  unconfirmed disabled : Snapshot
  running : String → String → String → Dict String → Snapshot

abbrev pub options_eq : Dict String → Dict String → Bool
options_eq [] [] = true
options_eq ((k, v) ∷ d) ((j, w) ∷ e) = str_eq k j && str_eq v w && options_eq d e
options_eq [] ((j, w) ∷ e) = false
options_eq ((k, v) ∷ d) [] = false

-- `a == b` of snapshots
unfoldable pub snapshot_eq : Snapshot → Snapshot → Bool
snapshot_eq unconfirmed unconfirmed = true
snapshot_eq disabled disabled = true
snapshot_eq (running m v s o) (running m' v' s' o') =
    str_eq m m' && str_eq v v' && str_eq s s' && options_eq o o'
snapshot_eq unconfirmed disabled = false
snapshot_eq unconfirmed (running m v s o) = false
snapshot_eq disabled unconfirmed = false
snapshot_eq disabled (running m v s o) = false
snapshot_eq (running m v s o) unconfirmed = false
snapshot_eq (running m v s o) disabled = false

-- DeploymentSettings: the Docker context, the text of each option, and `alias.replace("-", "_")`.
pub record Settings : Type 0 where
  pub docker_context : String
  pub option : String → String
  pub underscored : String → String

abbrev pub ChangeState : Type 0
ChangeState = Dict (Dict Snapshot)

abbrev when : Bool → List String → List String
when true names = names
when false names = []

-- `fields` in snapshots
unfoldable pub option_names : Settings → String → Preset → List String
option_names settings alias p =
    when (str_eq alias "llm-general") ("llm_context_tokens" ∷ "llm_kv_cache_type" ∷ [])
    ++ (when (starts_with alias "ner-") (str_append (settings.underscored alias) "_dtype" ∷ [])
        ++ (when (str_eq p.runtime "gliner") ("gliner_threshold" ∷ "gliner_labels" ∷ [])
            ++ when (str_eq p.service "vlm-documents")
                ("vllm_granite_gpu_memory_utilization" ∷ [])))

module _ (pkg : PackageData) (settings : Settings) where
  abbrev running_of : Assignment → Preset → String → Snapshot
  running_of a p alias =
      running a.model_id a.variant_id p.service
        (map (λ (name : String). (name, settings.option name)) (option_names settings alias p))

  -- The body of the loop of snapshots.
  unfoldable pub snapshot_of : String → Assignment → Result DeploymentError Snapshot
  snapshot_of alias a =
      if not a.enabled
      then ok disabled
      else recipe pkg alias a.model_id a.variant_id >>= λ p. ok (running_of a p alias)

  unfoldable pub snapshots_of : Dict Assignment → Result DeploymentError (Dict Snapshot)
  snapshots_of [] = ok []
  snapshots_of ((alias, a) ∷ rest) =
      snapshot_of alias a >>= λ s. snapshots_of rest >>= λ more. ok ((alias, s) ∷ more)

  unfoldable pub snapshots : Option Deployment → Result DeploymentError (Dict Snapshot)
  snapshots file =
      load_deployment pkg file (some settings.docker_context) >>= λ d. snapshots_of d.assignments

-- _load
abbrev pub load_changes : Option ChangeState → ChangeState
load_changes none = []
load_changes (some s) = s

-- `targets.setdefault(target, {})`
abbrev pub baseline_of : String → ChangeState → Dict Snapshot
baseline_of target s = value_or [] (get_item target s)

-- The loop of remember_before_edit.
unfoldable pub remember_all : List String → Dict Snapshot → Dict Snapshot → Dict Snapshot
remember_all [] current baseline = baseline
remember_all (alias ∷ aliases) current baseline =
    remember_all aliases current
      (set_default alias (value_or disabled (get_item alias current)) baseline)

abbrev pub names_or : Option (List String) → List String → List String
names_or none names = names
names_or (some given) names = given

-- remember_before_edit from the snapshots on.
unfoldable pub remember :
    String → Option (List String) → Dict Snapshot → Option ChangeState → ChangeState
remember target aliases current state =
    set_item target
      (remember_all (names_or aliases (keys_of current)) current
        (baseline_of target (load_changes state)))
      (load_changes state)

unfoldable pub remember_before_edit :
    PackageData
    → Settings
    → Option Deployment
    → Option (List String)
    → Option ChangeState
    → Result DeploymentError (Option ChangeState)
remember_before_edit pkg settings file aliases state = snapshots pkg settings file >>= λ current.
    ok (some (remember settings.docker_context aliases current state))

-- `alias in baseline and desired != baseline[alias]`
abbrev pub is_pending : Snapshot → Option Snapshot → Bool
is_pending desired none = false
is_pending desired (some base) = not (snapshot_eq desired base)

unfoldable pub pending_in : Dict Snapshot → Dict Snapshot → List String
pending_in baseline [] = []
pending_in baseline ((alias, desired) ∷ rest) =
    let more = pending_in baseline rest in
    if is_pending desired (get_item alias baseline) then alias ∷ more else more

abbrev pub pending_of :
    Dict Snapshot → Result DeploymentError (Dict Snapshot) → Result DeploymentError (List String)
pending_of [] current = ok []
pending_of (b ∷ bs) current = current >>= λ c. ok (pending_in (b ∷ bs) c)

unfoldable pub pending_aliases :
    PackageData
    → Settings
    → Option Deployment
    → Option ChangeState
    → Result DeploymentError (List String)
pending_aliases pkg settings file state =
    pending_of (baseline_of settings.docker_context (load_changes state))
      (snapshots pkg settings file)

unfoldable pub record_applied : String → Dict Snapshot → Option ChangeState → ChangeState
record_applied target applied state =
    set_item target (update_items (baseline_of target (load_changes state)) applied)
      (load_changes state)

unfoldable pub mark_unconfirmed : String → String → Option ChangeState → ChangeState
mark_unconfirmed target alias state =
    set_item target (set_item alias unconfirmed (baseline_of target (load_changes state)))
      (load_changes state)
