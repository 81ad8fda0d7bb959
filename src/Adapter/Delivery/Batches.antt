-- ===== src/Adapter/Delivery/Batches.antt =====
-- A batch of `due`: rows that wait and whose time has come, each source once.
use native.Mathlib.Nat.{pow-suc}
use k8s_stack_tooling.Prelude.{
  Bool-cases, inl, inr, ℕ, zero, suc, ◌+◌, ◌≤◌, ◌^◌, String, Bool, true, false, List, [], ◌∷◌, ◌≡◌,
  ◌≢◌, refl, arith, leb, min, ◌&&◌, ◌||◌, if◌then◌else◌, str_eq, eq_iff, take, length, length-take,
}
use k8s_stack_tooling.Adapter.Types.{Row}
use k8s_stack_tooling.Adapter.Rows.{has_source}
use k8s_stack_tooling.Adapter.Delivery.{
  is_due, due_rows, insert_by_attempt, order_by_attempt, due, update_where, as_delivered,
  as_deferred, retry_delay,
}

-- Each source is there once.
abbrev pub Distinct : List Row → Type 0
Distinct [] = Unit
Distinct (r ∷ rows) = (has_source r.source rows ≡ false) × Distinct rows

-- Some row of this source is due.
abbrev pub has_due : ℕ → String → List Row → Bool
has_due now s [] = false
has_due now s (r ∷ rows) = (str_eq r.source s && is_due now r) || has_due now s rows

abbrev pub due_count : ℕ → List Row → ℕ
due_count now [] = 0
due_count now (r ∷ rows) = (if is_due now r then 1 else 0) + due_count now rows

-- A batch over the table `rows`.
abbrev pub Batch : ℕ → List Row → List Row → Type 0
Batch now rows [] = Unit
Batch now rows (r ∷ b) =
    (has_due now r.source rows ≡ true) × (has_source r.source b ≡ false) × Batch now rows b

has_source-insert :
    (s : String) (r : Row) (b : List Row)
    → has_source s (insert_by_attempt r b) ≡ (str_eq r.source s || has_source s b)
unfolding insert_by_attempt
has_source-insert s r [] = refl
has_source-insert s r (x ∷ b) = ground (arith, has_source-insert s r b)

Batch-insert :
    (now : ℕ) (rows : List Row) (r : Row) (b : List Row)
    → has_due now r.source rows ≡ true
    → has_source r.source b ≡ false
    → Batch now rows b
    → Batch now rows (insert_by_attempt r b)
unfolding insert_by_attempt
Batch-insert now rows r [] d h v = (d, refl, tt)
Batch-insert now rows r (x ∷ b) d h v = elim (Bool-cases (leb r.next_attempt x.next_attempt)) [
  | inl before ↦ rw before (d, h, v)
  | inr after ↦ rw after (
    v.0,
    rw has_source-insert (ground (arith, eq_iff x.source r.source, eq_iff r.source x.source)),
    Batch-insert now rows r b d (ground arith) v.2,
  )
]

Batch-cons : (now : ℕ) (x : Row) (rows b : List Row) → Batch now rows b → Batch now (x ∷ rows) b
Batch-cons now x rows [] v = tt
Batch-cons now x rows (r ∷ b) v = (ground (arith, v.0), v.1, Batch-cons now x rows b v.2)

pub has_source-due :
    (now : ℕ) (s : String) (rows : List Row)
    → has_source s rows ≡ false
    → has_source s (order_by_attempt (due_rows now rows)) ≡ false
unfolding order_by_attempt due_rows
has_source-due now s [] h = refl
has_source-due now s (r ∷ rows) h = elim (Bool-cases (is_due now r)) [
  | inl yes_due ↦ rw yes_due (rw has_source-insert (ground (arith, has_source-due now s rows)))
  | inr not_due ↦ rw not_due (has_source-due now s rows (ground arith))
]

due_rows-Batch :
    (now : ℕ) (rows : List Row)
    → Distinct rows
    → Batch now rows (order_by_attempt (due_rows now rows))
unfolding order_by_attempt due_rows
due_rows-Batch now [] u = tt
due_rows-Batch now (r ∷ rows) u = elim (Bool-cases (is_due now r)) [
  | inl yes_due ↦ rw yes_due (
      Batch-insert now (r ∷ rows) r (order_by_attempt (due_rows now rows))
        (rw yes_due (ground (arith, eq_iff r.source r.source)))
        (has_source-due now r.source rows u.0)
        (Batch-cons now r rows (order_by_attempt (due_rows now rows))
          (due_rows-Batch now rows u.1)))
  | inr not_due ↦
      rw not_due
        (Batch-cons now r rows (order_by_attempt (due_rows now rows)) (due_rows-Batch now rows u.1))
]

has_source-take :
    (n : ℕ) (s : String) (b : List Row) → has_source s b ≡ false → has_source s (take n b) ≡ false
has_source-take zero s b h = refl
has_source-take (suc n) s [] h = refl
has_source-take (suc n) s (r ∷ b) h = ground (arith, has_source-take n s b)

Batch-take : (now n : ℕ) (rows b : List Row) → Batch now rows b → Batch now rows (take n b)
Batch-take now zero rows b v = tt
Batch-take now (suc n) rows [] v = tt
Batch-take now (suc n) rows (r ∷ b) v =
    (v.0, has_source-take n r.source b v.1, Batch-take now n rows b v.2)

-- `due` returns rows whose source waits and is due, each source once.
pub due-Batch :
    (now limit : ℕ) (rows : List Row) → Distinct rows → Batch now rows (due now limit rows)
unfolding due
due-Batch now limit rows u =
    Batch-take now limit rows (order_by_attempt (due_rows now rows)) (due_rows-Batch now rows u)

length-insert : (r : Row) (b : List Row) → length (insert_by_attempt r b) ≡ suc (length b)
unfolding insert_by_attempt
length-insert r [] = refl
length-insert r (x ∷ b) = ground (arith, length-insert r b)

length-due_rows :
    (now : ℕ) (rows : List Row) → length (order_by_attempt (due_rows now rows)) ≡ due_count now rows
unfolding order_by_attempt due_rows
length-due_rows now [] = refl
length-due_rows now (r ∷ rows) =
    ground (arith, length-due_rows now rows, length-insert r (order_by_attempt (due_rows now rows)))

-- `due` returns as many rows as are due, up to the limit.
pub length-due :
    (now limit : ℕ) (rows : List Row) → length (due now limit rows) ≡ min limit (due_count now rows)
unfolding due
length-due now limit rows =
    rw (length-take {0} limit (order_by_attempt (due_rows now rows)))
      (rw (length-due_rows now rows))

-- An update of one source after which that row is not due.
module _ (now : ℕ) (s : String) (f : Row → Row) (keeps : (r : Row) → (f r).source ≡ r.source)
    (settles : (r : Row) → is_due now (f r) ≡ false) where
  has_source-update_where :
      (t : String) (rows : List Row) → has_source t (update_where s f rows) ≡ has_source t rows
  unfolding update_where
  has_source-update_where t [] = refl
  has_source-update_where t (r ∷ rows) = ground (arith, keeps r, has_source-update_where t rows)

  pub Distinct-update_where : (rows : List Row) → Distinct rows → Distinct (update_where s f rows)
  unfolding update_where
  Distinct-update_where [] u = tt
  Distinct-update_where (r ∷ rows) u =
      (rw has_source-update_where (ground (arith, keeps r)), Distinct-update_where rows u.1)

  pub has_due-update_where :
      (t : String) (rows : List Row)
      → t ≢ s
      → has_due now t (update_where s f rows) ≡ has_due now t rows
  unfolding update_where
  has_due-update_where t [] ne = refl
  has_due-update_where t (r ∷ rows) ne =
      ground (arith, keeps r, has_due-update_where t rows ne, eq_iff r.source s, eq_iff r.source t)

  pub due_count-update_where :
      (rows : List Row)
      → due_count now (update_where s f rows) + (if has_due now s rows then 1 else 0)
        ≤ due_count now rows
  unfolding update_where
  due_count-update_where [] = omega arith
  due_count-update_where (r ∷ rows) = ground (arith, settles r, due_count-update_where rows)

pub as_delivered_settles : (now : ℕ) (r : Row) → is_due now (as_delivered r) ≡ false
unfolding is_due
as_delivered_settles now r = refl

two_le_pow : (e : ℕ) → 1 ≤ e → 2 ≤ 2 ^ e
two_le_pow zero h = absurd (omega arith)
two_le_pow (suc zero) h = omega arith
two_le_pow (suc (suc e)) h = rw pow-suc (omega (arith, two_le_pow (suc e) (omega arith)))

-- A retry waits for two seconds at least and for five minutes at most.
retry_delay_bounds : (attempts : ℕ) → (2 ≤ retry_delay attempts) × (retry_delay attempts ≤ 300)
retry_delay_bounds attempts =
    let p = two_le_pow (min (attempts + 1) 9) (omega arith) in (omega arith, omega arith)

pub as_deferred_settles :
    (attempts now : ℕ) (r : Row) → is_due now (as_deferred attempts now r) ≡ false
unfolding is_due
as_deferred_settles attempts now r = ground (arith, retry_delay_bounds attempts)
