-- ===== src/Jobs/Examples.antt =====
-- jobs.py on small inputs.
use k8s_stack_tooling.Prelude.{
  ℕ, zero, suc, ◌+◌, ◌*◌, ◌≤◌, ◌<◌, String, true, false, Option, some, List, [], ◌∷◌, ◌≡◌, ◌⊎◌, ◌↔◌,
  refl, arith, ok, err,
}
use k8s_stack_tooling.Value.{str, obj, Fields, end, field}
use k8s_stack_tooling.Jobs.Submit.{
  metadata_of, checked_metadata, require_configmap_versions, submit_checked, attach, bad_wait,
  ConfigMapVersion, submitted, complete, Cluster, submit_snapshot_job, read_config_map,
  create_config_map, create_job, patch_config_map, is_empty,
}
use k8s_stack_tooling.Jobs.Submission.{Reports, submit_snapshot_job-Reports}
use k8s_stack_tooling.Jobs.Wait.{JobStatus, Waited, wait_for_job}
use k8s_stack_tooling.Jobs.Waiting.{IsClock, Because, wait_for_job-Because}
use k8s_stack_tooling.Jobs.Summary.{Pod, available, read_job_summary}
use k8s_stack_tooling.Jobs.Summaries.{IsMadeOf, read_job_summary-IsMadeOf}

abbrev cluster : Cluster
cluster = record {
  reads = λ name namespace. some ("u1", "7");
  creates_config_map = λ namespace name. some ("u2", "8");
  creates_job = λ namespace body. some "u3";
  patches = λ name namespace. true;
}

abbrev body : Fields
body = field "apiVersion" (str "batch/v1") (
    field "kind" (str "Job")
      (field "metadata" (obj (field "name" (str "sync") (field "namespace" (str "ai") end))) end))

abbrev input : ConfigMapVersion
input = record { namespace = "ai"; name = "models"; uid = "u1"; resource_version = "7" }

-- A whole submission, and one whose input has changed.
submits : submit_snapshot_job cluster body end (input ∷ []) ≡ (
  read_config_map "models" "ai"
      ∷ create_config_map "ai" "sync" end
      ∷ create_job "ai" body
      ∷ patch_config_map "sync" "ai" ("u2", "8") "u3"
      ∷ [],
  ok (record { namespace = "ai"; name = "sync"; status = submitted; phase = complete; uid = "u3" }),
)
unfolding submit_snapshot_job metadata_of checked_metadata require_configmap_versions submit_checked
    attach
submits = refl

submit_snapshot_job-Reports_example :
    Reports cluster body end (input ∷ []) (submit_snapshot_job cluster body end (input ∷ []))
submit_snapshot_job-Reports_example = submit_snapshot_job-Reports cluster body end (input ∷ [])

-- A clock that a second passes between any two readings of, and two more in each sleep.
abbrev clock : ℕ → ℕ
clock i = 3000 * i

abbrev shown : ℕ → Option JobStatus
shown zero = some (record { uid = "u3"; conditions = [] })
shown (suc k) =
    some (record { uid = "u3"; conditions = record { kind = "Complete"; status = "True" } ∷ [] })

clock-IsClock : (deadline : ℕ) → IsClock clock deadline
clock-IsClock deadline = record {
  started = omega arith;
  forward = λ k. omega arith;
  slept = λ k. omega arith;
}

wait_for_job-Because_example :
    ((is_empty "u3" ≡ true) ⊎ (86400000 < 60000))
      × (wait_for_job clock shown "u3" 60000 31 ≡ err bad_wait)
    ⊎ ((w : Waited) × (wait_for_job clock shown "u3" 60000 31 ≡ ok (some w))
        × Because clock shown "u3" (clock 0 + 60000) w)
wait_for_job-Because_example =
    wait_for_job-Because clock shown "u3" 60000 30 (clock-IsClock (clock 0 + 60000)) (omega arith)

-- One pod of the Job, a log of four bytes and a redactor that keeps the text.
abbrev pod : Pod
pod = record {
  name = "sync-1";
  owners = record { uid = "u3"; kind = "Job"; controller = true } ∷ [];
}

abbrev pods : Option (List Pod)
pods = some (pod ∷ [])

abbrev log : String → ℕ → ℕ → Option ℕ
log name limit count = some 4

abbrev size : ℕ → ℕ
size n = n

abbrev decode : ℕ → Option String
decode n = some "done"

abbrev summarize : String → Option String
summarize t = some t

read_job_summary-IsMadeOf_example :
    (read_job_summary pods log size decode summarize "u3" "main" 16384 ≡ ok (available "done")) ↔ (
      (is_empty "u3" ≡ false)
      × (is_empty "main" ≡ false)
      × (1 ≤ 16384)
      × (16384 ≤ 1048576)
      × IsMadeOf pods log size decode summarize "u3" 16384 "done")
read_job_summary-IsMadeOf_example =
    read_job_summary-IsMadeOf pods log size decode summarize "u3" "main" 16384 "done"
