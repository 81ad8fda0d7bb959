-- ===== src/Adapter/Examples.antt =====
-- A small adapter at work, and the theorems of this folder at it.
use k8s_stack_tooling.Prelude.{
  inl, inr, ◌⊎◌, sym, ◌∙◌, eq_iff, true, ℕ, ◌≤◌, max, String, true, false, none, some, List, [],
  ◌∷◌, ◌≡◌, refl, ap, arith, ok, length, if◌then◌else◌, str_eq,
}
use k8s_stack_tooling.Value.{null}
use k8s_stack_tooling.Adapter.Types.{Record, Scope, Decision, report, log_only, Row}
use k8s_stack_tooling.Adapter.Rows.{
  Tables, insert_or_ignore, insert_excluded, insert_message, label_of, find_identity, cursor,
  raise_cursor, pending_count,
}
use k8s_stack_tooling.Value.{text_in}
use k8s_stack_tooling.Adapter.State.{
  first_characters, Context, source_of, event_of, enqueue, enqueue_all, enqueue_one,
  enqueue_reported, message_digest, identity_of, payload_of, queued_row, excluded_row,
}
use k8s_stack_tooling.Adapter.State.Outbox.{Grows, enqueue-Grows}
use k8s_stack_tooling.Adapter.State.Identities.{enqueue-HasIdentity}
use k8s_stack_tooling.Adapter.State.Replay.{AreFaithful, enqueue_again}
use k8s_stack_tooling.Adapter.Delivery.{
  Progress, delivery_cycle_attempts, deliver_due, deliver_loop, deliver_batch, attempt, acknowledge,
  defer, update_where, due, order_by_attempt, insert_by_attempt, due_rows, is_due,
}
use k8s_stack_tooling.Adapter.Delivery.Cycle.{Finished, deliver_due-Finished}
use k8s_stack_tooling.Adapter.Delivery.Loss.{waiting, deliver_due-waiting}
use k8s_stack_tooling.Adapter.Poll.{
  Polling, Polled, Answer, records, max_pending, lower_of, poll_scope,
}
use k8s_stack_tooling.Adapter.Poll.Windows.{Chain}
use k8s_stack_tooling.Adapter.Poll.Scopes.{AnswersAreBounded, poll_scope_lem}

abbrev scope : Scope
scope = record {
  id = "s";
  application = "shop";
  service = "api";
  namespaces = "prod" ∷ [];
  containers = "web" ∷ [];
  failure_types = "error" ∷ [];
  release = none;
}

abbrev record_of : String → String → Record
record_of id message = record {
  index = "logs";
  id = id;
  timestamp = "2026-01-01T00:00:00Z";
  message = message;
  namespace = "prod";
  container = "web";
  failure_type = "error";
  image = some "web:1";
  original_level = none;
}

-- The digest of a test is the last part.
abbrev last_of : List String → String
last_of [] = ""
last_of (s ∷ []) = s
last_of (s ∷ t ∷ ss) = last_of (t ∷ ss)

-- Messages of probes are excluded.
abbrev reported : Scope → Record → Decision
reported s r = record {
  rule_id = "rule";
  action = if str_eq r.message "probe" then log_only else report;
  count_unit = "error_events";
  title = r.message;
  explanation = "";
  level = "error";
  original_level = none;
  identity_parts = none;
  diagnostics = null;
}

abbrev ctx : Context
ctx = record {
  environment = "prod";
  digest = last_of;
  evaluate = reported;
  grouping_parts = λ m. m ∷ [];
  log_links = λ r. some (none, none);
  now = 50;
}

abbrev empty_tables : Tables
empty_tables = record { cursors = []; messages = []; templates = []; records = [] }

abbrev read : List Record
read = record_of "a" "boom" ∷ record_of "b" "probe" ∷ []

abbrev row_a : Row
row_a = record {
  source = "a";
  event_id = "a";
  payload = some (record {
    event_id = "a";
    message = "boom";
    timestamp = "2026-01-01T00:00:00Z";
    level = "error";
    environment = "prod";
    fingerprint = "boom";
    application = "shop";
    service = "api";
    namespace = "prod";
    container = "web";
    failure_type = "error";
    rule_id = "rule";
    count_unit = "error_events";
    explanation = "";
    matching_logs_url = none;
    surrounding_logs_url = none;
    original_level = none;
    original_log = "boom";
    diagnostics = null;
    release = some "web:1";
  });
  delivered = 0;
  attempts = 0;
  next_attempt = 0;
  queued_at = 50;
}

abbrev row_b : Row
row_b = record {
  source = "b";
  event_id = "b";
  payload = none;
  delivered = 2;
  attempts = 0;
  next_attempt = 0;
  queued_at = 0;
}

abbrev filled : Tables
filled = record {
  cursors = ("s", 900) ∷ [];
  messages = record { scope = "s"; digest = "boom"; identity = "boom" } ∷ [];
  templates = [];
  records = row_a ∷ row_b ∷ [];
}

enqueue-read : enqueue ctx scope [] read 900 empty_tables ≡ ok (1, filled)
unfolding enqueue enqueue_all enqueue_one enqueue_reported insert_or_ignore insert_excluded
    insert_message message_digest identity_of payload_of queued_row excluded_row label_of
    raise_cursor source_of event_of first_characters
enqueue-read = refl

enqueue-Grows_example : Grows [] 2 1 filled.records
enqueue-Grows_example = enqueue-Grows ctx scope [] read 900 empty_tables enqueue-read

enqueue-known :
    enqueue ctx scope [] read 900 (record empty_tables { messages = filled.messages })
    ≡ ok (1, filled)
unfolding find_identity enqueue enqueue_all enqueue_one enqueue_reported insert_or_ignore
    insert_excluded insert_message message_digest identity_of payload_of queued_row excluded_row
    label_of raise_cursor source_of event_of first_characters
enqueue-known = refl

enqueue-HasIdentity_example : find_identity "s" "boom" filled.messages ≡ some "boom"
unfolding find_identity
enqueue-HasIdentity_example =
    enqueue-HasIdentity ctx scope "s" "boom" "boom" [] read 900
      (record empty_tables { messages = filled.messages }) refl enqueue-known

one_of : (a : String) → text_in a ("a" ∷ "b" ∷ []) ≡ true → (a ≡ "a") ⊎ (a ≡ "b")
one_of a h = ground (arith, eq_iff a "a", eq_iff a "b")

-- The events of the two sources are different.
faithful : AreFaithful ctx scope ("a" ∷ "b" ∷ [])
unfolding event_of first_characters
faithful a b la lb e = elim (one_of a la) [
  | inl pa ↦ elim (one_of b lb) [ inl pb ↦ pa ∙ sym pb | inr pb ↦ cc (rw (pa, pb) at e) ]
  | inr pa ↦ elim (one_of b lb) [ inl pb ↦ cc (rw (pa, pb) at e) | inr pb ↦ pa ∙ sym pb ]
]

enqueue_again_example :
    enqueue
      (record ctx {
        evaluate = λ s r. record (reported s r) { action = report };
        log_links = λ r. none;
      })
      scope
      []
      read
      950
      filled
    ≡ ok (0, record filled { cursors = raise_cursor "s" 950 filled.cursors })
unfolding event_of source_of
enqueue_again_example =
    enqueue_again ctx scope ("a" ∷ "b" ∷ []) faithful [] [] read 900 950
      (λ s r. record (reported s r) { action = report }) (λ r. none) empty_tables tt
      (refl, (refl, tt)) enqueue-read

deliver_due-Finished_example :
    (q : Progress) × (deliver_due (λ i. false) (λ i p. true) 60 filled.records ≡ some q)
    × Finished (λ i. false) (λ i p. true) 60 delivery_cycle_attempts filled.records 0 q
deliver_due-Finished_example =
    deliver_due-Finished (λ i. false) (λ i p. true) 60 filled.records (refl, (refl, tt))

-- A transport that is down: the row waits on.
deliver_due-outage :
    deliver_due (λ i. false) (λ i p. false) 60 filled.records
    ≡ some (record {
      rows = record row_a { attempts = 1; next_attempt = 62 } ∷ row_b ∷ [];
      tried = 1;
      tests = 3;
      stopped = false;
    })
unfolding deliver_due deliver_loop deliver_batch attempt acknowledge defer update_where due
    order_by_attempt insert_by_attempt due_rows is_due
deliver_due-outage = refl

deliver_due-waiting_example :
    waiting "a" (record row_a { attempts = 1; next_attempt = 62 } ∷ row_b ∷ []) ≡ some row_a.payload
deliver_due-waiting_example =
    deliver_due-waiting (λ i. false) (λ i p. false) 60 "a" row_a.payload filled.records
      (record {
        rows = record row_a { attempts = 1; next_attempt = 62 } ∷ row_b ∷ [];
        tried = 1;
        tests = 3;
        stopped = false;
      })
      (λ i. refl) (refl, (refl, tt)) refl deliver_due-outage

-- A transport whose windows hold one record each, read up to the present.
abbrev env : Polling
env = record {
  initial = 0;
  overlap = 0;
  settle = 0;
  halted = λ s. false;
  stops = λ s i. false;
  now = λ s. 400;
  window = λ s i lower upper. records (record_of "a" "boom" ∷ []) [];
}

env-AnswersAreBounded : AnswersAreBounded env
env-AnswersAreBounded s i lower upper rs labels e = ground (arith, ap count_answer e)
  where
    count_answer : Answer → ℕ
    count_answer (records xs l) = length xs
    count_answer a = 0

poll_scope_lem_example :
    (q : Polled) × (poll_scope ctx env scope empty_tables ≡ some q)
    × Chain (lower_of env scope empty_tables) q.lower q.windows
    × (cursor "s" 0 q.tables.cursors ≤ max (cursor "s" 0 []) q.lower)
    × (pending_count q.tables.records ≤ max_pending)
unfolding pending_count
poll_scope_lem_example =
    poll_scope_lem ctx env env-AnswersAreBounded scope empty_tables (omega arith)
