-- ===== src/Adapter/Poll.antt =====
-- main.py, run: how a scope's windows are read and committed. Instants are microseconds.
-- `stops i` is the i-th test of the stop event, `window i lower upper` the i-th read of the transport.
pub mod Windows
pub mod Scopes
use k8s_stack_tooling.Prelude.{
  ℕ, zero, suc, ◌+◌, ◌-◌, ◌*◌, ◌/◌, ◌%◌, String, Bool, true, false, Option, none, some, List, [],
  ◌∷◌, ◌++◌, ◌==◌, leb, ltb, min, max, ◌||◌, if◌then◌else◌, Result, ok, err,
}
use k8s_stack_tooling.Adapter.Types.{Record, Scope}
use k8s_stack_tooling.Adapter.Rows.{Tables, StateError, pending_count, cursor}
use k8s_stack_tooling.Adapter.State.{Context, enqueue}

-- settings.py, MAX_RECORDS and MAX_PENDING
abbrev pub max_records : ℕ
max_records = 1000

abbrev pub max_pending : ℕ
max_pending = 10000

-- `timedelta(minutes=5)` and `timedelta(milliseconds=1)`
abbrev pub five_minutes : ℕ
five_minutes = 300000000

abbrev pub minimum_window : ℕ
minimum_window = 1000

abbrev pub max_segments : ℕ
max_segments = 512

-- What `transport.window` answers: WindowFullError, another AdapterError, or records and labels.
pub data Answer : Type 0 where
  full failed : Answer
  records : List Record → List (String × String) → Answer

-- How the loop over the windows of one scope ends.
pub data Ending : Type 0 where
  finished stalled_by_limit stalled_at_minimum stalled_by_error : Ending
  raised : StateError → Ending

-- `windows` are those that were committed, the last one first.
pub record Polled : Type 0 where
  pub tables : Tables
  pub lower : ℕ
  pub windows : List (ℕ × ℕ)
  pub ending : Ending

-- `(upper - lower) / 2`: a timedelta is halved with ties to the even number of microseconds.
unfoldable pub half_span : ℕ → ℕ
half_span d = if d % 2 == 0 then d / 2 else if d / 2 % 2 == 0 then d / 2 else d / 2 + 1

abbrev pub outbox_full : Tables → Bool
outbox_full t = ltb (max_pending - max_records) (pending_count t.records)

module _ (ctx : Context) (scope : Scope) (stops : ℕ → Bool) (window : ℕ → ℕ → ℕ → Answer)
    (target : ℕ) where
  -- What follows the transaction of a window; `again` is the rest of the loop.
  abbrev pub after_commit :
      (ℕ → ℕ → Polled → Option Polled)
      → ℕ
      → ℕ
      → Polled
      → Result StateError (ℕ × Tables)
      → Option Polled
  after_commit again segments upper p (err e) = some (record p { ending = raised e })
  after_commit again segments upper p (ok (n, t)) =
      again (segments + 1) (min target (upper + five_minutes))
        (record p { tables = t; lower = upper; windows = (p.lower, upper) ∷ p.windows })

  -- What follows an answer.
  abbrev pub after_answer :
      (ℕ → ℕ → Polled → Option Polled) → ℕ → ℕ → Polled → Answer → Option Polled
  after_answer again segments upper p full =
      let halved = again segments (p.lower + half_span (upper - p.lower)) p in
      if leb (upper - p.lower) minimum_window
      then some (record p { ending = stalled_at_minimum })
      else halved
  after_answer again segments upper p failed = some (record p { ending = stalled_by_error })
  after_answer again segments upper p (records rs labels) =
      after_commit again segments upper p (enqueue ctx scope labels rs upper p.tables)

  -- The inner `while`; `none` means that the fuel ran out.
  unfoldable pub poll_loop : ℕ → ℕ → ℕ → ℕ → Polled → Option Polled
  poll_loop zero i segments upper p = none
  poll_loop (suc fuel) i segments upper p =
      let answered =
        after_answer (λ s u q. poll_loop fuel (i + 1) s u q) segments upper p
          (window i p.lower upper) in
      if stops i
      then some (record p { ending = finished })
      else if leb target p.lower
      then some (record p { ending = finished })
      else if leb max_segments segments || outbox_full p.tables
      then some (record p { ending = stalled_by_limit })
      else answered

-- One round of `run` over the scopes, with the settings that it reads. The stop event, the clock and
-- the transport are asked anew for each scope.
pub record Polling : Type 0 where
  pub initial : ℕ
  pub overlap : ℕ
  pub settle : ℕ
  pub halted : Scope → Bool
  pub stops : Scope → ℕ → Bool
  pub now : Scope → ℕ
  pub window : Scope → ℕ → ℕ → ℕ → Answer

-- Rounds enough for every segment with all its halvings.
abbrev pub poll_fuel : ℕ
poll_fuel = max_segments * 20 + 20

abbrev pub lower_of : Polling → Scope → Tables → ℕ
lower_of env scope t = max env.initial (cursor scope.id env.initial t.cursors - env.overlap)

abbrev pub target_of : Polling → Scope → Tables → ℕ
target_of env scope t =
    min (env.now scope - env.settle)
      (max (cursor scope.id env.initial t.cursors) env.initial + five_minutes)

-- The body of the loop over the scopes, from `cursor = ...` on.
unfoldable pub poll_scope : Context → Polling → Scope → Tables → Option Polled
poll_scope ctx env scope t =
    let lower = lower_of env scope t in
    let target = target_of env scope t in
    let p : Polled = record { tables = t; lower = lower; windows = []; ending = finished } in
    let polled =
      poll_loop ctx scope (env.stops scope) (env.window scope) target poll_fuel 0 0
        (min target (lower + five_minutes)) p in
    if leb target lower then some p else polled

-- What the round did, and whether an exception ended the run.
pub data Round : Type 0 where
  went crashed : Tables → Round
  out_of_fuel : Round

-- After a scope the round goes on, unless an exception ended it.
abbrev pub after_scope : (Tables → Round) → Ending → Tables → Round
after_scope next (raised e) t = crashed t
after_scope next finished t = next t
after_scope next stalled_by_limit t = next t
after_scope next stalled_at_minimum t = next t
after_scope next stalled_by_error t = next t

abbrev after_poll : (Tables → Round) → Option Polled → Round
after_poll next none = out_of_fuel
after_poll next (some p) = after_scope next p.ending p.tables

-- `for scope in scopes`
unfoldable pub poll_scopes : Context → Polling → List Scope → Tables → Round
poll_scopes ctx env [] t = went t
poll_scopes ctx env (scope ∷ scopes) t =
    if env.halted scope
    then went t
    else if outbox_full t
    then went t
    else after_poll (λ u. poll_scopes ctx env scopes u) (poll_scope ctx env scope t)
