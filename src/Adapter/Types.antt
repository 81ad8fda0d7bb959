-- ===== src/Adapter/Types.antt =====
-- The data of the reporting adapter: state.py, settings.py, policy.py
use k8s_stack_tooling.Prelude.{ℕ, String, Option, List, Bool, true, false}
use k8s_stack_tooling.Value.{Value}

-- state.py, Record
pub record Record : Type 0 where
  pub index : String
  pub id : String
  pub timestamp : String
  pub message : String
  pub namespace : String
  pub container : String
  pub failure_type : String
  pub image : Option String
  pub original_level : Option String

-- settings.py, Scope
pub record Scope : Type 0 where
  pub id : String
  pub application : String
  pub service : String
  pub namespaces : List String
  pub containers : List String
  pub failure_types : List String
  pub release : Option String

-- The literals of `Rule.action`.
pub data Action : Type 0 where
  report log_only : Action

abbrev pub is_log_only : Action → Bool
is_log_only log_only = true
is_log_only report = false

-- policy.py, Decision, without the field `fields`, which only the preview reads.
pub record Decision : Type 0 where
  pub rule_id : String
  pub action : Action
  pub count_unit : String
  pub title : String
  pub explanation : String
  pub level : String
  pub original_level : Option String
  pub identity_parts : Option (List String)
  pub diagnostics : Value

-- The dict that `enqueue` builds for one occurrence.
pub record Payload : Type 0 where
  pub event_id : String
  pub message : String
  pub timestamp : String
  pub level : String
  pub environment : String
  pub fingerprint : String
  pub application : String
  pub service : String
  pub namespace : String
  pub container : String
  pub failure_type : String
  pub rule_id : String
  pub count_unit : String
  pub explanation : String
  pub matching_logs_url : Option String
  pub surrounding_logs_url : Option String
  pub original_level : Option String
  pub original_log : String
  pub diagnostics : Value
  pub release : Option String

-- A row of the table `records`; times are seconds. A `payload` that is NULL is `none`.
pub record Row : Type 0 where
  pub source : String
  pub event_id : String
  pub payload : Option Payload
  pub delivered : ℕ
  pub attempts : ℕ
  pub next_attempt : ℕ
  pub queued_at : ℕ
