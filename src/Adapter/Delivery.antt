-- ===== src/Adapter/Delivery.antt =====
-- state.py: due, acknowledge, defer; main.py: deliver_due.
-- The clock of a cycle, the stop event and the transport are parameters: `halted i` is the i-th test
-- of the stop event and the deadline, `accepts i payload` is how the i-th delivery ends.
pub mod Batches
pub mod Batched
pub mod Cycle
pub mod Loss
use k8s_stack_tooling.Prelude.{
  ℕ, zero, suc, ◌+◌, ◌-◌, ◌^◌, String, Bool, true, false, Option, none, some, List, [], ◌∷◌, ◌==◌,
  leb, min, ◌&&◌, if◌then◌else◌, str_eq, take,
}
use k8s_stack_tooling.Adapter.Types.{Payload, Row}

-- main.py, DELIVERY_BATCH_SIZE and DELIVERY_CYCLE_ATTEMPTS
abbrev delivery_batch_size : ℕ
delivery_batch_size = 100

abbrev pub delivery_cycle_attempts : ℕ
delivery_cycle_attempts = 10000

-- delivered=0 AND next_attempt<=?
unfoldable pub is_due : ℕ → Row → Bool
is_due now r = r.delivered == 0 && leb r.next_attempt now

unfoldable pub due_rows : ℕ → List Row → List Row
due_rows now [] = []
due_rows now (r ∷ rows) = let rest = due_rows now rows in if is_due now r then r ∷ rest else rest

-- ORDER BY next_attempt, rowid
unfoldable pub insert_by_attempt : Row → List Row → List Row
insert_by_attempt r [] = r ∷ []
insert_by_attempt r (x ∷ xs) =
    if leb r.next_attempt x.next_attempt then r ∷ x ∷ xs else x ∷ insert_by_attempt r xs

unfoldable pub order_by_attempt : List Row → List Row
order_by_attempt [] = []
order_by_attempt (r ∷ rows) = insert_by_attempt r (order_by_attempt rows)

-- State.due
unfoldable pub due : ℕ → ℕ → List Row → List Row
due now limit rows = take limit (order_by_attempt (due_rows now rows))

-- UPDATE records SET ... WHERE source=?
unfoldable pub update_where : String → (Row → Row) → List Row → List Row
update_where source f [] = []
update_where source f (r ∷ rows) =
    (if str_eq r.source source then f r else r) ∷ update_where source f rows

abbrev pub as_delivered : Row → Row
as_delivered r = record r { delivered = 1; payload = none }

-- State.acknowledge
unfoldable pub acknowledge : String → List Row → List Row
acknowledge source rows = update_where source as_delivered rows

abbrev pub retry_delay : ℕ → ℕ
retry_delay attempts = min 300 (2 ^ min (attempts + 1) 9)

abbrev pub as_deferred : ℕ → ℕ → Row → Row
as_deferred attempts now r = record r {
  attempts = r.attempts + 1;
  next_attempt = now + retry_delay attempts;
}

-- State.defer
unfoldable pub defer : String → ℕ → ℕ → List Row → List Row
defer source attempts now rows = update_where source (as_deferred attempts now) rows

-- The variables of deliver_due, and how many tests of `halted` were made.
pub record Progress : Type 0 where
  pub rows : List Row
  pub tried : ℕ
  pub tests : ℕ
  pub stopped : Bool

abbrev pub limit_of : ℕ → ℕ → ℕ
limit_of attempts tried = min delivery_batch_size (attempts - tried)

abbrev pub is_empty : List Row → Bool
is_empty [] = true
is_empty (r ∷ rs) = false

module _ (halted : ℕ → Bool) (accepts : ℕ → Option Payload → Bool) (now : ℕ) where
  -- One delivery and its record in the table.
  unfoldable pub attempt : Row → Progress → Progress
  attempt r p = record p {
    rows =
        if accepts p.tried r.payload
        then acknowledge r.source p.rows
        else defer r.source r.attempts now p.rows;
    tried = p.tried + 1;
  }

  -- The loop over a batch.
  unfoldable pub deliver_batch : List Row → Progress → Progress
  deliver_batch [] p = p
  deliver_batch (r ∷ batch) p =
      let rest = deliver_batch batch (attempt r (record p { tests = p.tests + 1 })) in
      if halted p.tests then record p { tests = p.tests + 1; stopped = true } else rest

  -- The `while` loop with `attempts` for DELIVERY_CYCLE_ATTEMPTS; `none` means that the fuel ran out.
  unfoldable pub deliver_loop : ℕ → ℕ → Progress → Option Progress
  deliver_loop zero attempts p = none
  deliver_loop (suc fuel) attempts p =
      let tested : Progress = record p { tests = p.tests + 1 } in
      let batch = due now (limit_of attempts p.tried) p.rows in
      let again = deliver_loop fuel attempts (deliver_batch batch tested) in
      if leb attempts p.tried
      then some p
      else if halted p.tests
      then some (record tested { stopped = true })
      else if is_empty batch
      then some tested
      else if (deliver_batch batch tested).stopped
      then some (deliver_batch batch tested)
      else again

  -- deliver_due; a round that goes on has tried a row, so one round more than the attempts is enough.
  unfoldable pub deliver_due : List Row → Option Progress
  deliver_due rows =
      deliver_loop (suc delivery_cycle_attempts) delivery_cycle_attempts
        (record { rows = rows; tried = 0; tests = 0; stopped = false })
