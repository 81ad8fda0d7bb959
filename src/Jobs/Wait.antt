-- ===== src/Jobs/Wait.antt =====
-- jobs.py: wait_for_job. Times are milliseconds; `clock i` is the i-th reading of the clock and
-- `status i` what the i-th read of the Job answers, `none` an API error.
use k8s_stack_tooling.Prelude.{
  ℕ, zero, suc, ◌+◌, ◌-◌, ◌*◌, String, Bool, Option, none, some, List, not, ◌&&◌, ◌||◌, any, leb,
  min, if◌then◌else◌, str_eq, Result, ok, err,
}
use k8s_stack_tooling.Jobs.Submit.{JobError, bad_wait, is_empty}

pub record Condition : Type 0 where
  pub kind : String
  pub status : String

pub record JobStatus : Type 0 where
  pub uid : String
  pub conditions : List Condition

pub data Waited : Type 0 where
  complete failed timeout uncertain : Waited

-- `any(c.type == kind and c.status == "True" for c in conditions)`
abbrev pub has_condition : String → List Condition → Bool
has_condition kind cs = any (λ c. str_eq c.kind kind && str_eq c.status "True") cs

-- What one read says: an ending, or `none` to go on.
unfoldable pub verdict : String → Option JobStatus → Option Waited
verdict uid none = some uncertain
verdict uid (some s) =
    if not (str_eq s.uid uid)
    then some uncertain
    else if has_condition "Failed" s.conditions
    then some failed
    else if has_condition "Complete" s.conditions
    then some complete
    else none

-- `sleep(min(2, max(0, deadline - clock())))`
abbrev pub pause : ℕ → ℕ → ℕ
pause deadline now = min 2000 (deadline - now)

module _ (clock : ℕ → ℕ) (status : ℕ → Option JobStatus) (uid : String) (deadline : ℕ) where
  abbrev pub or_else : Option Waited → Option Waited → Option Waited
  or_else (some w) rest = some w
  or_else none rest = rest

  -- The loop from the k-th round on, which reads the clock at its test and before it sleeps; `none`
  -- means that the fuel ran out.
  unfoldable pub wait_loop : ℕ → ℕ → Option Waited
  wait_loop zero k = none
  wait_loop (suc fuel) k =
      let rest = wait_loop fuel (k + 1) in
      let answered = or_else (verdict uid (status k)) rest in
      if leb deadline (clock (1 + 2 * k)) then some timeout else answered

-- wait_for_job, with a whole number of milliseconds to wait; a day is the longest.
unfoldable pub wait_for_job :
    (ℕ → ℕ) → (ℕ → Option JobStatus) → String → ℕ → ℕ → Result JobError (Option Waited)
wait_for_job clock status uid milliseconds fuel =
    if is_empty uid || not (leb milliseconds 86400000)
    then err bad_wait
    else ok (wait_loop clock status uid (clock 0 + milliseconds) fuel 0)
