-- ===== src/Runtime/Examples.antt =====
-- assignments.py and pending.py on small inputs.
use k8s_stack_tooling.Prelude.{
  String, true, false, Option, none, some, List, [], ◌∷◌, ◌≡◌, ◌↔◌, refl, ok, Dict,
}
use k8s_stack_tooling.Value.{text_in}
use k8s_stack_tooling.Runtime.Assignments.{
  Assignment, Deployment, Preset, PackageData, recipe, review, review_all, is_other,
  load_deployment,
}
use k8s_stack_tooling.Runtime.Assignments.Reviewed.{AllReviewed, load_deployment-IsReviewed}
use k8s_stack_tooling.Runtime.Changes.{
  Snapshot, disabled, running, Settings, snapshot_eq, option_names, snapshot_of, snapshots_of,
  snapshots, remember_all, remember, pending_in, pending_aliases,
}
use k8s_stack_tooling.Runtime.Changes.Points.{
  Event, edit, confirm, roll_back, save_all, points, step_all, points-save_all,
}
use k8s_stack_tooling.Runtime.Changes.Pending.{Differs, pending_aliases-edits}

-- A documents model whose recipe got a new variant.
abbrev granite : Preset
granite = record {
  model_id = "granite";
  variant_id = "bf16";
  service = "vlm-documents";
  runtime = "vllm";
  default = true;
  enabled = none;
}

abbrev package_data : PackageData
package_data = record {
  service_recipes = ("vlm-documents", granite ∷ []) ∷ [];
  category_of = λ (model : String). some "ocr";
}

abbrev choice_of : String → Option String → Assignment
choice_of variant runtime = record {
  model_id = "granite";
  variant_id = variant;
  enabled = true;
  runtime = runtime;
}

abbrev deployment_of : Assignment → Deployment
deployment_of choice = record { target = "default"; assignments = ("vlm-documents", choice) ∷ [] }

-- The old choice is moved to the new variant.
migrates :
    load_deployment package_data (some (deployment_of (choice_of "gguf" none))) none
    ≡ ok (deployment_of (choice_of "bf16" (some "vllm")))
unfolding load_deployment review_all review recipe
migrates = refl

load_deployment-IsReviewed_example :
    (is_other package_data none "default" ≡ false)
    × AllReviewed package_data (("vlm-documents", choice_of "bf16" (some "vllm")) ∷ [])
    × (load_deployment package_data (some (deployment_of (choice_of "bf16" (some "vllm")))) none
        ≡ ok (deployment_of (choice_of "bf16" (some "vllm"))))
load_deployment-IsReviewed_example =
    load_deployment-IsReviewed package_data (some (deployment_of (choice_of "gguf" none))) none
      (deployment_of (choice_of "bf16" (some "vllm"))) migrates

abbrev settings : Settings
settings = record {
  docker_context = "default";
  option = λ (name : String). "0.3";
  underscored = λ (alias : String). alias;
}

abbrev snapshot_now : Snapshot
snapshot_now =
    running "granite" "bf16" "vlm-documents" (("vllm_granite_gpu_memory_utilization", "0.3") ∷ [])

abbrev now : Dict Snapshot
now = ("vlm-documents", snapshot_now) ∷ []

snapshots_now :
    snapshots package_data settings (some (deployment_of (choice_of "gguf" none))) ≡ ok now
unfolding snapshots load_deployment review_all review recipe snapshots_of snapshot_of option_names
snapshots_now = refl

abbrev first_edit : Event
first_edit = edit "default" none (("vlm-documents", disabled) ∷ [])

abbrev events : List Event
events = first_edit ∷ confirm "default" now ∷ roll_back "default" "vlm-documents" ∷ []

points-save_all_example :
    points (save_all events none) "default" "vlm-documents"
    ≡ step_all events (points none) "default" "vlm-documents"
points-save_all_example = points-save_all events none "default" "vlm-documents"

names_it :
    pending_aliases package_data settings
      (some (deployment_of (choice_of "gguf" none)))
      (save_all (first_edit ∷ edit "default" none now ∷ []) none)
    ≡ ok ("vlm-documents" ∷ [])
unfolding pending_aliases snapshots load_deployment review_all review recipe snapshots_of
    snapshot_of option_names remember remember_all pending_in snapshot_eq
names_it = refl

pending_aliases-edits_example :
    (text_in "vlm-documents" ("vlm-documents" ∷ []) ≡ true) ↔ Differs "vlm-documents" now disabled
pending_aliases-edits_example =
    pending_aliases-edits package_data settings (some (deployment_of (choice_of "gguf" none))) none
      none (("vlm-documents", disabled) ∷ []) now (edit "default" none now ∷ [])
      ("vlm-documents" ∷ []) "vlm-documents" refl refl (tt, tt) snapshots_now (refl, tt) names_it
