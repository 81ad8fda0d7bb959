-- ===== src/Adapter/Delivery/Batched.antt =====
-- deliver_due: what a run over one batch does.
use k8s_stack_tooling.Prelude.{
  Bool-cases, inl, inr, ℕ, suc, ◌+◌, ◌≤◌, String, Bool, true, false, Option, List, [], ◌∷◌, ◌≡◌,
  ◌≢◌, refl, arith, if◌then◌else◌, eq_iff, length,
}
use k8s_stack_tooling.Adapter.Types.{Payload, Row}
use k8s_stack_tooling.Adapter.Rows.{has_source}
use k8s_stack_tooling.Adapter.Delivery.{
  update_where, is_due, as_delivered, as_deferred, acknowledge, defer, Progress, attempt,
  deliver_batch,
}
use k8s_stack_tooling.Adapter.Delivery.Batches.{
  Distinct, has_due, due_count, Batch, Distinct-update_where, has_due-update_where,
  due_count-update_where, as_delivered_settles, as_deferred_settles,
}

module _ (halted : ℕ → Bool) (accepts : ℕ → Option Payload → Bool) (now : ℕ) where
  -- What one attempt does to the table, whichever way the delivery ends.
  record Settles (r : Row) (before after : List Row) : Type 0 where
    distinct : Distinct before → Distinct after
    others : (t : String) → t ≢ r.source → has_due now t after ≡ has_due now t before
    fewer :
        due_count now after + (if has_due now r.source before then 1 else 0) ≤ due_count now before

  update_where-Settles :
      (r : Row) (f : Row → Row) (rows : List Row)
      → ((x : Row) → (f x).source ≡ x.source)
      → ((x : Row) → is_due now (f x) ≡ false)
      → Settles r rows (update_where r.source f rows)
  update_where-Settles r f rows keeps settles = record {
    distinct = Distinct-update_where now r.source f keeps settles rows;
    others = λ t. has_due-update_where now r.source f keeps settles t rows;
    fewer = due_count-update_where now r.source f keeps settles rows;
  }

  attempt-Settles :
      (r : Row) (p : Progress) → Settles r p.rows (attempt halted accepts now r p).rows
  unfolding attempt acknowledge defer
  attempt-Settles r p = elim (Bool-cases (accepts p.tried r.payload)) [
    | inl accepted ↦
        rw accepted
          (update_where-Settles r as_delivered p.rows (λ x. refl) (as_delivered_settles now))
    | inr refused ↦ rw refused (
        update_where-Settles r (as_deferred r.attempts now) p.rows (λ x. refl)
          (as_deferred_settles r.attempts now))
  ]

  -- The rest of a batch is a batch over the table that an attempt leaves.
  Batch-after :
      (r : Row) (before after : List Row) (b : List Row)
      → has_source r.source b ≡ false
      → ((t : String) → t ≢ r.source → has_due now t after ≡ has_due now t before)
      → Batch now before b
      → Batch now after b
  Batch-after r before after [] h others v = tt
  Batch-after r before after (x ∷ b) h others v = (
    rw (others x.source (λ e. ground (arith, eq_iff x.source r.source))) v.0,
    v.1,
    Batch-after r before after b (ground arith) others v.2,
  )

  -- What a run over a batch of `n` rows has done by its end.
  pub record Ran (n : ℕ) (rows : List Row) (tried : ℕ) (after : Progress) : Type 0 where
    pub distinct : Distinct rows → Distinct after.rows
    pub bounded : after.tried ≤ tried + n
    pub paid : due_count now after.rows + after.tried ≤ due_count now rows + tried
    pub whole : after.stopped ≡ false → after.tried ≡ tried + n

  attempt_tried : (r : Row) (p : Progress) → (attempt halted accepts now r p).tried ≡ p.tried + 1
  unfolding attempt
  attempt_tried r p = refl

  attempt_stopped : (r : Row) (p : Progress) → (attempt halted accepts now r p).stopped ≡ p.stopped
  unfolding attempt
  attempt_stopped r p = refl

  Ran-cons :
      (r : Row) (n : ℕ) (p : Progress) {after : Progress}
      → has_due now r.source p.rows ≡ true
      → let next = attempt halted accepts now r p in
        Settles r p.rows next.rows
        → Ran n next.rows next.tried after
        → Ran (suc n) p.rows p.tried after
  Ran-cons r n p {after} is_there s ran =
      let t = attempt_tried r p in
      let fewer = rw is_there at (s.fewer) in
      record {
        distinct = λ u. ran.distinct (s.distinct u);
        bounded = omega (arith, ran.bounded);
        paid = omega (arith, ran.paid, fewer);
        whole = λ e. omega (arith, ran.whole e);
      }

  pub deliver_batch-Ran :
      (b : List Row) (p : Progress)
      → Batch now p.rows b
      → p.stopped ≡ false
      → Ran (length b) p.rows p.tried (deliver_batch halted accepts now b p)
  unfolding deliver_batch
  deliver_batch-Ran [] p v run = record {
    distinct = λ u. u;
    bounded = omega arith;
    paid = omega arith;
    whole = λ e. omega arith;
  }
  deliver_batch-Ran (r ∷ b) p v run =
      let tested : Progress = record p { tests = p.tests + 1 } in
      let next : Progress = attempt halted accepts now r tested in
      let done = attempt-Settles r tested in
      let ih =
        deliver_batch-Ran b next (Batch-after r p.rows next.rows b v.1 done.others v.2)
          (rw attempt_stopped run) in
      elim (Bool-cases (halted p.tests)) [
        | inl halts ↦ rw halts (record {
          distinct = λ u. u;
          bounded = omega arith;
          paid = omega arith;
          whole = λ e. cc;
        })
        | inr goes_on ↦ rw goes_on (Ran-cons r (length b) tested v.0 done ih)
      ]
