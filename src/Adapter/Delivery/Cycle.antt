-- ===== src/Adapter/Delivery/Cycle.antt =====
-- A delivery cycle: it ends, tries no occurrence twice, and loses none.
use k8s_stack_tooling.Prelude.{
  Bool-cases, ◌⊎◌, inl, inr, ℕ, zero, suc, ◌+◌, ◌≤◌, ◌<◌, Bool, true, false, Option, some, List, [],
  ◌∷◌, ◌≡◌, refl, ◌∙◌, if_false, arith, leb, length,
}
use k8s_stack_tooling.Adapter.Types.{Payload, Row}
use k8s_stack_tooling.Adapter.Delivery.{
  delivery_cycle_attempts, due, Progress, deliver_batch, deliver_loop, deliver_due, limit_of,
  is_empty,
}
use k8s_stack_tooling.Adapter.Delivery.Batches.{Distinct, due_count, due-Batch, length-due}
use k8s_stack_tooling.Adapter.Delivery.Batched.{Ran, deliver_batch-Ran}

module _ (halted : ℕ → Bool) (accepts : ℕ → Option Payload → Bool) (now : ℕ) where
  -- What a loop has done by its end: each attempt has settled one due row, and unless it was stopped
  -- or has used up its attempts, no row is due any more.
  pub record Finished (attempts : ℕ) (rows : List Row) (tried : ℕ) (after : Progress) : Type 0 where
    pub paid : due_count now after.rows + after.tried ≤ due_count now rows + tried
    pub bounded : after.tried ≤ attempts
    pub complete : after.stopped ≡ false → after.tried < attempts → due_count now after.rows ≡ 0

  due_empty :
      (limit : ℕ) (rows : List Row)
      → 0 < limit
      → is_empty (due now limit rows) ≡ true
      → due_count now rows ≡ 0
  due_empty limit rows h e =
      omega (arith, length-due now limit rows, none_left (due now limit rows) e)
    where
      none_left : (b : List Row) → is_empty b ≡ true → length b ≡ 0
      none_left [] e = refl
      none_left (x ∷ b) e = cc

  some_left : (b : List Row) → is_empty b ≡ false → 0 < length b
  some_left [] e = cc
  some_left (x ∷ b) e = omega arith

  abbrev batch_of : ℕ → Progress → List Row
  batch_of attempts p = due now (limit_of attempts p.tried) p.rows

  abbrev after_batch : ℕ → Progress → Progress
  after_batch attempts p =
      deliver_batch halted accepts now (batch_of attempts p) (record p { tests = p.tests + 1 })

  after_batch-Ran :
      (attempts : ℕ) (p : Progress)
      → Distinct p.rows
      → p.stopped ≡ false
      → Ran halted accepts now
          (length (batch_of attempts p))
          p.rows
          p.tried
          (after_batch attempts p)
  after_batch-Ran attempts p u run =
      deliver_batch-Ran halted accepts now (batch_of attempts p) (record p { tests = p.tests + 1 })
        (due-Batch now (limit_of attempts p.tried) p.rows u) run

  abbrev Ends : ℕ → ℕ → Progress → Type 0
  Ends fuel attempts p =
      (q : Progress) × (deliver_loop halted accepts now fuel attempts p ≡ some q)
      × Finished attempts p.rows p.tried q

  -- The loop goes on after a batch that was not empty.
  abbrev GoesOn : ℕ → ℕ → Progress → Type 0
  GoesOn fuel attempts p =
      (deliver_loop halted accepts now (suc fuel) attempts p
        ≡ deliver_loop halted accepts now fuel attempts (after_batch attempts p))
      × ((after_batch attempts p).stopped ≡ false)
      × 0 < length (batch_of attempts p)

  -- A round ends the loop, or the loop goes on.
  deliver_round :
      (fuel attempts : ℕ) (p : Progress)
      → Distinct p.rows
      → p.tried ≤ attempts
      → p.stopped ≡ false
      → Ends (suc fuel) attempts p ⊎ GoesOn fuel attempts p
  unfolding deliver_loop
  deliver_round fuel attempts p u within run =
      let batch = batch_of attempts p in
      let next = after_batch attempts p in
      let ran = after_batch-Ran attempts p u run in
      let len = length-due now (limit_of attempts p.tried) p.rows in
      elim (Bool-cases (leb attempts p.tried)) [
        | inl used_up ↦ inl (
          p,
          rw used_up,
          record { paid = omega arith; bounded = within; complete = λ s less. ground arith },
        )
        | inr left ↦ elim (Bool-cases (halted p.tests)) [
          | inl halts ↦ inl (
            record p { tests = p.tests + 1; stopped = true },
            rw (left, halts),
            record { paid = omega arith; bounded = within; complete = λ s less. cc },
          )
          | inr goes_on ↦ elim (Bool-cases (is_empty batch)) [
            | inl empty ↦ inl (
              record p { tests = p.tests + 1 },
              rw (left, goes_on, empty),
              record {
                paid = omega arith;
                bounded = within;
                complete =
                    λ s less. due_empty (limit_of attempts p.tried) p.rows (omega arith) empty;
              },
            )
            | inr full ↦ elim (Bool-cases next.stopped) [
              | inl stops ↦ inl (
                next,
                rw (left, goes_on, full, stops),
                record {
                  paid = ran.paid;
                  bounded = omega (arith, ran.bounded);
                  complete = λ s less. cc;
                },
              )
              | inr again ↦ inr (
                if_false _ _ left ∙ if_false _ _ goes_on ∙ if_false _ _ full ∙ if_false _ _ again,
                again,
                some_left batch full,
              )
            ]
          ]
        ]
      ]

  deliver_loop-Finished :
      (fuel attempts : ℕ) (p : Progress)
      → Distinct p.rows
      → p.tried ≤ attempts
      → attempts < fuel + p.tried
      → p.stopped ≡ false
      → Ends fuel attempts p
  deliver_loop-Finished zero attempts p u within room run = absurd (omega arith)
  deliver_loop-Finished (suc fuel) attempts p u within room run =
      elim (deliver_round fuel attempts p u within run) [
        | inl ends ↦ ends
        | inr (goes_on, again, filled) ↦
            let ran = after_batch-Ran attempts p u run in
            let len = length-due now (limit_of attempts p.tried) p.rows in
            let (q, is_q, fin) =
              deliver_loop-Finished fuel attempts (after_batch attempts p) (ran.distinct u)
                (omega (arith, ran.bounded)) (omega (arith, ran.whole again, filled)) again in
            (
              q,
              goes_on ∙ is_q,
              record {
                paid = omega (arith, fin.paid, ran.paid);
                bounded = fin.bounded;
                complete = fin.complete;
              },
            )
      ]

  -- A cycle ends. It tries at most as many deliveries as rows were due when it began, and at most the
  -- attempts of a cycle; if it was not stopped and has attempts left, no row is due any more.
  pub deliver_due-Finished :
      (rows : List Row)
      → Distinct rows
      → (q : Progress) × (deliver_due halted accepts now rows ≡ some q)
        × Finished delivery_cycle_attempts rows 0 q
  unfolding deliver_due
  deliver_due-Finished rows u =
      deliver_loop-Finished (suc delivery_cycle_attempts) delivery_cycle_attempts
        (record { rows = rows; tried = 0; tests = 0; stopped = false }) u (omega arith)
        (omega arith) refl
