-- ===== src/Adapter/Poll/Scopes.antt =====
-- One scope, and all scopes, of a round.
use k8s_stack_tooling.Prelude.{
  Bool-cases, inl, inr, ℕ, ◌+◌, ◌≤◌, ◌<◌, String, some, List, [], ◌≡◌, refl, arith, leb, min, max,
  length,
}
use k8s_stack_tooling.Adapter.Types.{Record, Scope}
use k8s_stack_tooling.Adapter.Rows.{Tables, pending_count, cursor}
use k8s_stack_tooling.Adapter.State.{Context}
use k8s_stack_tooling.Adapter.Poll.{
  max_records, max_pending, five_minutes, records, Polled, finished, Polling, lower_of, target_of,
  poll_fuel, poll_scope,
}
use k8s_stack_tooling.Adapter.Poll.Windows.{Chain, poll_loop-Ends}

-- No answer of the transport holds more than `MAX_RECORDS` records.
abbrev pub AnswersAreBounded : Polling → Type 0
AnswersAreBounded env =
    (scope : Scope) (i lower upper : ℕ) (rs : List Record) (labels : List (String × String))
    → env.window scope i lower upper ≡ records rs labels
    → length rs ≤ max_records

module _ (ctx : Context) (env : Polling) (bounded : AnswersAreBounded env) where
  -- With an outbox within its limit, reading a scope ends. The windows that it commits follow one
  -- another without a gap from its start, the cursor passes neither where it was nor what was read,
  -- and the outbox is within its limit afterwards.
  pub poll_scope_lem :
      (scope : Scope) (t : Tables)
      → pending_count t.records ≤ max_pending
      → (q : Polled) × (poll_scope ctx env scope t ≡ some q)
        × Chain (lower_of env scope t) q.lower q.windows
        × (cursor scope.id env.initial q.tables.cursors
            ≤ max (cursor scope.id env.initial t.cursors) q.lower)
        × (pending_count q.tables.records ≤ max_pending)
  unfolding poll_scope
  poll_scope_lem scope t room =
      let start = lower_of env scope t in
      let target = target_of env scope t in
      let old = cursor scope.id env.initial t.cursors in
      let p : Polled = record { tables = t; lower = start; windows = []; ending = finished } in
      elim (Bool-cases (leb target start)) [
        | inl reached ↦ rw reached (p, refl, refl, omega arith, room)
        | inr below ↦ rw below (
            let start_below : start < target = ground arith in
            let (q, ends, v) =
              poll_loop-Ends ctx scope (env.stops scope) (env.window scope) env.initial start target
                old (bounded scope) poll_fuel 0 0 (min target (start + five_minutes)) 19 p
                (record {
                  chain = refl;
                  behind = omega arith;
                  pending = room;
                  within = omega arith;
                })
                (omega arith) (λ h. (omega arith, omega arith)) (omega arith) (omega arith)
                (omega arith) in
            (q, ends, v.chain, v.behind, v.pending))
      ]
