-- ===== src/Adapter/Poll/Windows.antt =====
-- The windows of a scope: the loop ends, they follow one another without a gap, the cursor never
-- passes what was read, and the outbox keeps within its limit.
use native.Mathlib.Nat.{pow-suc}
use k8s_stack_tooling.Prelude.{
  Bool-cases, inl, inr, ℕ, zero, suc, ◌+◌, ◌-◌, ◌*◌, ◌^◌, ◌≤◌, ◌<◌, String, Bool, false, Option,
  some, List, [], ◌∷◌, ◌≡◌, refl, arith, leb, min, max, ◌||◌, Result, ok, err, length,
}
use k8s_stack_tooling.Adapter.Types.{Record, Scope, Row}
use k8s_stack_tooling.Adapter.Rows.{Tables, StateError, pending_count, cursor}
use k8s_stack_tooling.Adapter.State.{Context, enqueue}
use k8s_stack_tooling.Adapter.State.Outbox.{enqueue-Grows, pending_count-append}
use k8s_stack_tooling.Adapter.State.Identities.{cursor-raise_cursor_eq, cursors-enqueue}
use k8s_stack_tooling.Adapter.Poll.{
  max_records, max_pending, five_minutes, minimum_window, max_segments, Answer, full, failed,
  records, Ending, raised, finished, stalled_by_limit, stalled_at_minimum, stalled_by_error, Polled,
  half_span, outbox_full, after_answer, after_commit, poll_loop,
}

half_span_bounds :
    (d m : ℕ) → 1000 < d → d ≤ 2 * m → (0 < half_span d) × (half_span d ≤ m) × (half_span d < d)
unfolding half_span
half_span_bounds d m h k = ground arith

pending_count-le-length : (rows : List Row) → pending_count rows ≤ length rows
unfolding pending_count
pending_count-le-length [] = omega arith
pending_count-le-length (r ∷ rows) = ground (arith, pending_count-le-length rows)

-- The windows lead from `start` to `reached` without a gap; the last one stands first.
abbrev pub Chain : ℕ → ℕ → List (ℕ × ℕ) → Type 0
Chain start reached [] = reached ≡ start
Chain start reached ((a, b) ∷ ws) = (b ≡ reached) × (a < b) × Chain start a ws

pub record IsPolled (scope : Scope) (initial start target old : ℕ) (p : Polled) : Type 0 where
  pub chain : Chain start p.lower p.windows
  pub behind : cursor scope.id initial p.tables.cursors ≤ max old p.lower
  pub pending : pending_count p.tables.records ≤ max_pending
  pub within : p.lower ≤ target

module _ (ctx : Context) (scope : Scope) (stops : ℕ → Bool) (window : ℕ → ℕ → ℕ → Answer)
    (initial start target old : ℕ) where
  commit-IsPolled :
      (p : Polled) (labels : List (String × String)) (rs : List Record) (upper : ℕ) {n : ℕ}
      {t : Tables}
      → enqueue ctx scope labels rs upper p.tables ≡ ok (n, t)
      → initial ≤ upper
      → p.lower < upper
      → upper ≤ target
      → length rs ≤ max_records
      → outbox_full p.tables ≡ false
      → IsPolled scope initial start target old p
      → IsPolled scope initial start target old
          (record p { tables = t; lower = upper; windows = (p.lower, upper) ∷ p.windows })
  commit-IsPolled p labels rs upper {n} {t} e from up to few room v =
      let g = enqueue-Grows ctx scope labels rs upper p.tables e in
      let c = cursors-enqueue ctx scope labels rs upper p.tables e in
      record {
        chain = (refl, up, v.chain);
        behind = rw c (
            omega (
              arith,
              cursor-raise_cursor_eq scope.id upper initial p.tables.cursors from,
              v.behind,
            ));
        pending = rw g.appended (
            ground (
              arith,
              pending_count-append p.tables.records g.added,
              pending_count-le-length g.added,
              g.bounded,
            ));
        within = to;
      }

  -- The transport never answers with more records than `MAX_RECORDS`.
  abbrev IsBounded : Type 0
  IsBounded =
      (i lower upper : ℕ) (rs : List Record) (labels : List (String × String))
      → window i lower upper ≡ records rs labels
      → length rs ≤ max_records

  abbrev pub Ends : Option Polled → Type 0
  Ends o = (q : Polled) × (o ≡ some q) × IsPolled scope initial start target old q

  -- The rest of a loop, from the windows that are left and the halvings that the current one allows.
  abbrev Continues : ℕ → (ℕ → ℕ → Polled → Option Polled) → Type 0
  Continues fuel again =
      (segments upper halvings : ℕ) (p : Polled)
      → IsPolled scope initial start target old p
      → initial ≤ p.lower
      → (p.lower < target → (p.lower < upper) × (upper ≤ target))
      → upper - p.lower ≤ minimum_window * 2 ^ halvings
      → halvings ≤ 19
      → (max_segments - segments) * 20 + halvings < fuel
      → Ends (again segments upper p)

  -- An ending keeps what was reached.
  stop :
      (p : Polled) (e : Ending)
      → IsPolled scope initial start target old p
      → Ends (some (record p { ending = e }))
  stop p e v = (
    record p { ending = e },
    refl,
    record { chain = v.chain; behind = v.behind; pending = v.pending; within = v.within },
  )

  halve-Ends :
      (fuel : ℕ) (again : ℕ → ℕ → Polled → Option Polled)
      → Continues fuel again
      → (segments upper halvings : ℕ) (p : Polled) → IsPolled scope initial start target old p
      → initial ≤ p.lower
      → p.lower < upper
      → upper ≤ target
      → upper - p.lower ≤ minimum_window * 2 ^ halvings
      → halvings ≤ 19
      → (max_segments - segments) * 20 + halvings < suc fuel
      → minimum_window < upper - p.lower
      → Ends (again segments (p.lower + half_span (upper - p.lower)) p)
  halve-Ends fuel again next segments upper zero p v from up to span h19 enough wide =
      absurd (omega arith)
  halve-Ends fuel again next segments upper (suc h) p v from up to span h19 enough wide =
      let m = minimum_window * 2 ^ h in
      let (grows, small, less) =
        half_span_bounds (upper - p.lower) m wide (omega (arith, pow-suc 2 h)) in
      next segments (p.lower + half_span (upper - p.lower)) h p v from
        (λ below. (omega arith, omega arith)) (omega arith) (omega arith) (omega arith)

  after_commit-Ends :
      (fuel : ℕ) (again : ℕ → ℕ → Polled → Option Polled)
      → Continues fuel again
      → (segments upper : ℕ) (p : Polled) (rs : List Record) (labels : List (String × String))
        (m : Result StateError (ℕ × Tables))
      → enqueue ctx scope labels rs upper p.tables ≡ m
      → length rs ≤ max_records
      → IsPolled scope initial start target old p
      → initial ≤ p.lower
      → p.lower < upper
      → upper ≤ target
      → segments < max_segments
      → outbox_full p.tables ≡ false
      → (max_segments - segments) * 20 < suc fuel
      → Ends (after_commit ctx scope stops window target again segments upper p m)
  after_commit-Ends fuel again next segments upper p rs labels (err x) e few v from up to seg room
        enough =
      stop p (raised x) v
  after_commit-Ends fuel again next segments upper p rs labels (ok (n, t)) e few v from up to seg
        room enough =
      next (segments + 1) (min target (upper + five_minutes)) 19
        (record p { tables = t; lower = upper; windows = (p.lower, upper) ∷ p.windows })
        (commit-IsPolled p labels rs upper e (omega arith) up to few room v) (omega arith)
        (λ below. (omega arith, omega arith)) (omega arith) (omega arith) (omega arith)

  after_answer-Ends :
      (fuel : ℕ) (again : ℕ → ℕ → Polled → Option Polled)
      → Continues fuel again
      → (segments upper halvings : ℕ) (p : Polled) (a : Answer)
      → ((rs : List Record) (labels : List (String × String))
          → a ≡ records rs labels
          → length rs ≤ max_records)
      → IsPolled scope initial start target old p
      → initial ≤ p.lower
      → p.lower < upper
      → upper ≤ target
      → upper - p.lower ≤ minimum_window * 2 ^ halvings
      → halvings ≤ 19
      → segments < max_segments
      → outbox_full p.tables ≡ false
      → (max_segments - segments) * 20 + halvings < suc fuel
      → Ends (after_answer ctx scope stops window target again segments upper p a)
  after_answer-Ends fuel again next segments upper halvings p failed few v from up to span h19 seg
        room enough =
      stop p stalled_by_error v
  after_answer-Ends fuel again next segments upper halvings p full few v from up to span h19 seg
        room enough =
      elim (Bool-cases (leb (upper - p.lower) minimum_window)) [
        | inl narrow ↦ rw narrow (stop p stalled_at_minimum v)
        | inr wide ↦ rw wide (
            halve-Ends fuel again next segments upper halvings p v from up to span h19 enough
              (ground arith))
      ]
  after_answer-Ends fuel again next segments upper halvings p (records rs labels) few v from up to
        span h19 seg room enough =
      after_commit-Ends fuel again next segments upper p rs labels
        (enqueue ctx scope labels rs upper p.tables) refl (few rs labels refl) v from up to seg room
        (omega arith)

  pub poll_loop-Ends :
      IsBounded
      → (fuel i segments upper halvings : ℕ) (p : Polled)
      → IsPolled scope initial start target old p
      → initial ≤ p.lower
      → (p.lower < target → (p.lower < upper) × (upper ≤ target))
      → upper - p.lower ≤ minimum_window * 2 ^ halvings
      → halvings ≤ 19
      → (max_segments - segments) * 20 + halvings < fuel
      → Ends (poll_loop ctx scope stops window target fuel i segments upper p)
  unfolding poll_loop
  poll_loop-Ends few zero i segments upper halvings p v from open_window span h19 enough =
      absurd (omega arith)
  poll_loop-Ends few (suc fuel) i segments upper halvings p v from open_window span h19 enough =
      elim (Bool-cases (stops i)) [
        | inl stopped ↦ rw stopped (stop p finished v)
        | inr runs ↦ rw runs (elim (Bool-cases (leb target p.lower)) [
          | inl reached ↦ rw reached (stop p finished v)
          | inr below ↦
              rw below (elim (Bool-cases (leb max_segments segments || outbox_full p.tables)) [
                | inl limited ↦ rw limited (stop p stalled_by_limit v)
                | inr free ↦ rw free (
                    let (up, to) = open_window (ground arith) in
                    after_answer-Ends fuel
                      (λ s u q. poll_loop ctx scope stops window target fuel (i + 1) s u q)
                      (λ s u h q. poll_loop-Ends few fuel (i + 1) s u h q) segments upper halvings p
                      (window i p.lower upper) (few i p.lower upper) v from up to span h19
                      (ground arith) (ground arith) enough)
              ])
        ])
      ]
