-- ===== src/Jobs/Summary.antt =====
-- jobs.py: read_job_summary. The cluster's answers, the decoding of bytes and the caller's redactor
-- are parameters; a call that raises is `none`, as is a value of the redactor that is None. The two
-- closing calls are part of the answer of the read.
use k8s_stack_tooling.Prelude.{
  ℕ, ◌+◌, String, Bool, Option, none, some, List, [], ◌∷◌, not, ◌&&◌, ◌||◌, any, leb, if◌then◌else◌,
  str_eq, Result, ok, err,
}
use k8s_stack_tooling.Jobs.Submit.{JobError, bad_budget, is_empty}

pub record Owner : Type 0 where
  pub uid : String
  pub kind : String
  pub controller : Bool

pub record Pod : Type 0 where
  pub name : String
  pub owners : List Owner

pub data LogSummary (T : Type 0) : Type 0 where
  available : T → LogSummary T
  unavailable : LogSummary T

abbrev pub of_redactor : {T : Type 0} → Option T → LogSummary T
of_redactor none = unavailable
of_redactor (some s) = available s

abbrev pub owns : String → Owner → Bool
owns uid o = str_eq o.uid uid && str_eq o.kind "Job" && o.controller

-- The answers: the pods of the Job; of a pod's log, limited to so many bytes, what a read of so many
-- gives; the number of bytes, the text of them, and the safe summary of a text.
module _ {Raw T : Type 0} (pods : Option (List Pod)) (log : String → ℕ → ℕ → Option Raw)
    (size : Raw → ℕ) (decode : Raw → Option String) (summarize : String → Option T)
    (uid : String) where
  unfoldable pub only_pod : Option (List Pod) → Option Pod
  only_pod (some (p ∷ [])) = if any (owns uid) p.owners then some p else none
  only_pod _ = none

  abbrev pub summary_of : Option String → LogSummary T
  summary_of none = unavailable
  summary_of (some t) = of_redactor (summarize t)

  unfoldable pub bounded : ℕ → Option Raw → LogSummary T
  bounded max_bytes none = unavailable
  bounded max_bytes (some raw) =
      if leb (size raw) max_bytes then summary_of (decode raw) else unavailable

  unfoldable pub summary_of_pod : ℕ → Option Pod → LogSummary T
  summary_of_pod max_bytes none = unavailable
  summary_of_pod max_bytes (some p) = bounded max_bytes (log p.name max_bytes (max_bytes + 1))

  unfoldable pub read_job_summary : String → ℕ → Result JobError (LogSummary T)
  read_job_summary container max_bytes =
      if is_empty uid || is_empty container || not (leb 1 max_bytes && leb max_bytes 1048576)
      then err bad_budget
      else ok (summary_of_pod max_bytes (only_pod pods))
