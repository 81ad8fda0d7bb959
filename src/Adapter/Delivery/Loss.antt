-- ===== src/Adapter/Delivery/Loss.antt =====
-- No occurrence is lost: what the transport has not accepted waits on, its payload unchanged.
use k8s_stack_tooling.Prelude.{
  Bool-cases, inl, inr, ℕ, zero, suc, ◌+◌, String, Bool, true, false, Option, none, some, List, [],
  ◌∷◌, ◌==◌, ◌≡◌, ◌≢◌, refl, ◌∙◌, arith, leb, ◌&&◌, if◌then◌else◌, str_eq, eq_iff, take,
}
use k8s_stack_tooling.Adapter.Types.{Payload, Row}
use k8s_stack_tooling.Adapter.Rows.{has_source}
use k8s_stack_tooling.Adapter.Delivery.{
  is_due, due_rows, insert_by_attempt, order_by_attempt, due, update_where, as_delivered,
  as_deferred, acknowledge, defer, Progress, attempt, deliver_batch, deliver_loop, deliver_due,
  limit_of,
}
use k8s_stack_tooling.Adapter.Delivery.Batches.{
  Distinct, Batch, due-Batch, has_source-due, Distinct-update_where, as_delivered_settles,
  as_deferred_settles,
}

-- The payload of a row of this source that waits for delivery.
abbrev pub waiting : String → List Row → Option (Option Payload)
waiting s [] = none
waiting s (r ∷ rows) =
    if str_eq r.source s && r.delivered == 0 then some r.payload else waiting s rows

-- The rows of a batch are those of the table.
abbrev Offers : List Row → List Row → Type 0
Offers rows [] = Unit
Offers rows (r ∷ b) = (waiting r.source rows ≡ some r.payload) × Offers rows b

Offers-insert :
    (rows : List Row) (r : Row) (b : List Row)
    → waiting r.source rows ≡ some r.payload
    → Offers rows b
    → Offers rows (insert_by_attempt r b)
unfolding insert_by_attempt
Offers-insert rows r [] h v = (h, tt)
Offers-insert rows r (x ∷ b) h v = elim (Bool-cases (leb r.next_attempt x.next_attempt)) [
  | inl before ↦ rw before (h, v)
  | inr after ↦ rw after (v.0, Offers-insert rows r b h v.1)
]

-- A row of another source in front changes nothing.
Offers-cons :
    (x : Row) (rows b : List Row)
    → has_source x.source b ≡ false
    → Offers rows b
    → Offers (x ∷ rows) b
Offers-cons x rows [] h v = tt
Offers-cons x rows (r ∷ b) h v = (
  ground (arith, v.0, eq_iff x.source r.source, eq_iff r.source x.source),
  Offers-cons x rows b (ground arith) v.1,
)

Offers-take : (n : ℕ) (rows b : List Row) → Offers rows b → Offers rows (take n b)
Offers-take zero rows b v = tt
Offers-take (suc n) rows [] v = tt
Offers-take (suc n) rows (r ∷ b) v = (v.0, Offers-take n rows b v.1)

due_rows-Offers :
    (now : ℕ) (rows : List Row) → Distinct rows → Offers rows (order_by_attempt (due_rows now rows))
unfolding order_by_attempt due_rows
due_rows-Offers now [] u = tt
due_rows-Offers now (r ∷ rows) u =
    let behind =
      Offers-cons r rows (order_by_attempt (due_rows now rows))
        (has_source-due now r.source rows u.0) (due_rows-Offers now rows u.1) in
    elim (Bool-cases (is_due now r)) [
      | inl yes_due ↦ rw yes_due (
          Offers-insert (r ∷ rows) r (order_by_attempt (due_rows now rows)) (is_waiting yes_due)
            behind)
      | inr not_due ↦ rw not_due behind
    ]
  where
    is_waiting : is_due now r ≡ true → waiting r.source (r ∷ rows) ≡ some r.payload
    is_waiting h = unfold is_due in ground (arith, h, eq_iff r.source r.source)

Batch-Distinct : (now : ℕ) (rows b : List Row) → Batch now rows b → Distinct b
Batch-Distinct now rows [] v = tt
Batch-Distinct now rows (r ∷ b) v = (v.1, Batch-Distinct now rows b v.2)

due-Offers : (now limit : ℕ) (rows : List Row) → Distinct rows → Offers rows (due now limit rows)
unfolding due
due-Offers now limit rows u =
    Offers-take limit rows (order_by_attempt (due_rows now rows)) (due_rows-Offers now rows u)

waiting-acknowledge :
    (s t : String) (rows : List Row) → t ≢ s → waiting t (acknowledge s rows) ≡ waiting t rows
unfolding acknowledge update_where
waiting-acknowledge s t [] ne = refl
waiting-acknowledge s t (r ∷ rows) ne =
    ground (arith, waiting-acknowledge s t rows ne, eq_iff r.source s, eq_iff r.source t)

waiting-defer :
    (s t : String) (attempts now : ℕ) (rows : List Row)
    → waiting t (defer s attempts now rows) ≡ waiting t rows
unfolding defer update_where
waiting-defer s t attempts now [] = refl
waiting-defer s t attempts now (r ∷ rows) = ground (arith, waiting-defer s t attempts now rows)

module _ (halted : ℕ → Bool) (accepts : ℕ → Option Payload → Bool) (now : ℕ) where
  attempt_others :
      (r : Row) (p : Progress) (t : String)
      → t ≢ r.source
      → waiting t (attempt halted accepts now r p).rows ≡ waiting t p.rows
  unfolding attempt
  attempt_others r p t ne = ground (
    arith,
    waiting-acknowledge r.source t p.rows ne,
    waiting-defer r.source t r.attempts now p.rows,
  )

  Offers-attempt :
      (r : Row) (p : Progress) (b : List Row)
      → has_source r.source b ≡ false
      → Offers p.rows b
      → Offers (attempt halted accepts now r p).rows b
  Offers-attempt r p [] h v = tt
  Offers-attempt r p (x ∷ b) h v = (
    attempt_others r p x.source (λ e. ground (arith, eq_iff x.source r.source)) ∙ v.0,
    Offers-attempt r p b (ground arith) v.1,
  )

  attempt-Distinct :
      (r : Row) (p : Progress) → Distinct p.rows → Distinct (attempt halted accepts now r p).rows
  unfolding attempt acknowledge defer
  attempt-Distinct r p u = elim (Bool-cases (accepts p.tried r.payload)) [
    | inl accepted ↦ rw accepted (
        Distinct-update_where now r.source as_delivered (λ x. refl) (as_delivered_settles now)
          p.rows u)
    | inr refused ↦ rw refused (
        Distinct-update_where now r.source (as_deferred r.attempts now) (λ x. refl)
          (as_deferred_settles r.attempts now) p.rows u)
  ]

  deliver_batch-Distinct :
      (b : List Row) (p : Progress)
      → Distinct p.rows
      → Distinct (deliver_batch halted accepts now b p).rows
  unfolding deliver_batch
  deliver_batch-Distinct [] p u = u
  deliver_batch-Distinct (r ∷ b) p u =
      let tested : Progress = record p { tests = p.tests + 1 } in
      let rest =
        deliver_batch-Distinct b (attempt halted accepts now r tested)
          (attempt-Distinct r tested u) in
      elim (Bool-cases (halted p.tests)) [ inl halts ↦ rw halts u | inr goes_on ↦ rw goes_on rest ]

  module _ (s : String) (payload : Option Payload)
      (refused : (i : ℕ) → accepts i payload ≡ false) where
    same_payload :
        (r : Row) (p : Progress)
        → waiting r.source p.rows ≡ some r.payload
        → waiting s p.rows ≡ some payload
        → str_eq s r.source ≡ true
        → accepts p.tried r.payload ≡ false
    same_payload r p offered h same =
        let is_payload : r.payload ≡ payload = cc (offered, h, (eq_iff s r.source).0 same) in
        rw is_payload (refused p.tried)

    attempt-waiting :
        (r : Row) (p : Progress)
        → waiting r.source p.rows ≡ some r.payload
        → waiting s p.rows ≡ some payload
        → waiting s (attempt halted accepts now r p).rows ≡ some payload
    attempt-waiting r p offered h = elim (Bool-cases (str_eq s r.source)) [
      | inl same ↦
          unfold attempt in
          rw (same_payload r p offered h same) (waiting-defer r.source s r.attempts now p.rows ∙ h)
      | inr other ↦ attempt_others r p s (λ e. ground (arith, eq_iff s r.source)) ∙ h
    ]

    deliver_batch-waiting :
        (b : List Row) (p : Progress)
        → Distinct b
        → Offers p.rows b
        → waiting s p.rows ≡ some payload
        → waiting s (deliver_batch halted accepts now b p).rows ≡ some payload
    unfolding deliver_batch
    deliver_batch-waiting [] p u o h = h
    deliver_batch-waiting (r ∷ b) p u o h =
        let tested : Progress = record p { tests = p.tests + 1 } in
        let rest =
          deliver_batch-waiting b (attempt halted accepts now r tested) u.1
            (Offers-attempt r tested b u.0 o.1) (attempt-waiting r tested o.0 h) in
        elim (Bool-cases (halted p.tests)) [
          | inl halts ↦ rw halts h
          | inr goes_on ↦ rw goes_on rest
        ]

    deliver_loop-waiting :
        (fuel attempts : ℕ) (p q : Progress)
        → Distinct p.rows
        → waiting s p.rows ≡ some payload
        → deliver_loop halted accepts now fuel attempts p ≡ some q
        → waiting s q.rows ≡ some payload
    unfolding deliver_loop
    deliver_loop-waiting zero attempts p q u h e = cc
    deliver_loop-waiting (suc fuel) attempts p q u h e =
        let tested : Progress = record p { tests = p.tests + 1 } in
        let batch = due now (limit_of attempts p.tried) p.rows in
        let next : Progress = deliver_batch halted accepts now batch tested in
        let kept =
          deliver_batch-waiting batch tested
            (Batch-Distinct now p.rows batch (due-Batch now (limit_of attempts p.tried) p.rows u))
            (due-Offers now (limit_of attempts p.tried) p.rows u) h in
        let again =
          deliver_loop-waiting fuel attempts next q (deliver_batch-Distinct batch tested u) kept in
        ground (arith, again)

  -- A payload that the transport does not accept in a cycle, however often it is offered, waits on in
  -- the outbox as it was.
  pub deliver_due-waiting :
      (s : String) (payload : Option Payload) (rows : List Row) (q : Progress)
      → ((i : ℕ) → accepts i payload ≡ false)
      → Distinct rows
      → waiting s rows ≡ some payload
      → deliver_due halted accepts now rows ≡ some q
      → waiting s q.rows ≡ some payload
  unfolding deliver_due
  deliver_due-waiting s payload rows q refused u h e =
      deliver_loop-waiting s payload refused _ _
        (record { rows = rows; tried = 0; tests = 0; stopped = false }) q u h e
