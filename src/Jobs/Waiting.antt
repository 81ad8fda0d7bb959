-- ===== src/Jobs/Waiting.antt =====
-- A wait ends, and what it returns was seen.
use k8s_stack_tooling.Prelude.{
  ltb, subst, Bool-cases, inl, inr, ℕ, zero, suc, ◌+◌, ◌*◌, ◌≤◌, ◌<◌, String, true, false, Option,
  none, some, ◌≡◌, refl, ◌⊎◌, arith, not, ◌||◌, leb, if◌then◌else◌, eq_iff, ok, err,
}
use k8s_stack_tooling.Jobs.Submit.{is_empty, bad_wait}
use k8s_stack_tooling.Jobs.Wait.{
  JobStatus, Waited, complete, failed, timeout, uncertain, has_condition, verdict, pause, or_else,
  wait_loop, wait_for_job,
}

-- The clock does not go back, and a sleep lasts at least as long as was asked for.
pub record IsClock (clock : ℕ → ℕ) (deadline : ℕ) : Type 0 where
  pub started : clock 0 ≤ clock 1
  pub forward : (k : ℕ) → clock (1 + 2 * k) ≤ clock (2 + 2 * k)
  pub slept :
      (k : ℕ) → clock (2 + 2 * k) + pause deadline (clock (2 + 2 * k)) ≤ clock (1 + 2 * (k + 1))

-- The rounds before the k-th one began before the deadline, and each of them read this very Job with
-- neither condition.
abbrev WentOn : (ℕ → ℕ) → (ℕ → Option JobStatus) → String → ℕ → ℕ → Type 0
WentOn clock status uid deadline k =
    (j : ℕ)
    → j < k
    → (clock (1 + 2 * j) < deadline)
      × ((s : JobStatus) × (status j ≡ some s)
          × (s.uid ≡ uid)
          × (has_condition "Failed" s.conditions ≡ false)
          × (has_condition "Complete" s.conditions ≡ false))

-- What the k-th round shows: a read of this very Job with the condition, a read that failed or showed
-- another Job, or a clock at the deadline.
abbrev Shows : (ℕ → ℕ) → (ℕ → Option JobStatus) → String → ℕ → ℕ → Waited → Type 0
Shows clock status uid deadline k complete =
    (s : JobStatus) × (clock (1 + 2 * k) < deadline)
    × (status k ≡ some s)
    × (s.uid ≡ uid)
    × (has_condition "Failed" s.conditions ≡ false)
    × (has_condition "Complete" s.conditions ≡ true)
Shows clock status uid deadline k failed =
    (s : JobStatus) × (clock (1 + 2 * k) < deadline)
    × (status k ≡ some s)
    × (s.uid ≡ uid)
    × (has_condition "Failed" s.conditions ≡ true)
Shows clock status uid deadline k timeout = deadline ≤ clock (1 + 2 * k)
Shows clock status uid deadline k uncertain =
    (clock (1 + 2 * k) < deadline)
    × ((status k ≡ none) ⊎ ((s : JobStatus) × (status k ≡ some s) × ¬ (s.uid ≡ uid)))

-- Why the result is what it is: the first round that did not go on shows it.
abbrev pub Because : (ℕ → ℕ) → (ℕ → Option JobStatus) → String → ℕ → Waited → Type 0
Because clock status uid deadline w =
    (k : ℕ) × WentOn clock status uid deadline k × Shows clock status uid deadline k w

module _ (clock : ℕ → ℕ) (status : ℕ → Option JobStatus) (uid : String) (deadline : ℕ) where
  verdict-Shows :
      (k : ℕ) (o : Option JobStatus) (w : Waited)
      → clock (1 + 2 * k) < deadline
      → status k ≡ o
      → verdict uid o ≡ some w
      → Shows clock status uid deadline k w
  unfolding verdict
  verdict-Shows k none complete early e h = cc
  verdict-Shows k none failed early e h = cc
  verdict-Shows k none timeout early e h = cc
  verdict-Shows k none uncertain early e h = (early, inl e)
  verdict-Shows k (some s) complete early e h =
      (s, early, e, ground (arith, eq_iff s.uid uid), ground arith, ground arith)
  verdict-Shows k (some s) failed early e h =
      (s, early, e, ground (arith, eq_iff s.uid uid), ground arith)
  verdict-Shows k (some s) timeout early e h = ground arith
  verdict-Shows k (some s) uncertain early e h =
      (early, inr (s, e, ground (arith, eq_iff s.uid uid)))

  verdict-none :
      (o : Option JobStatus)
      → verdict uid o ≡ none
      → (s : JobStatus) × (o ≡ some s)
        × (s.uid ≡ uid)
        × (has_condition "Failed" s.conditions ≡ false)
        × (has_condition "Complete" s.conditions ≡ false)
  unfolding verdict
  verdict-none none h = cc
  verdict-none (some s) h = (s, refl, ground (arith, eq_iff s.uid uid), ground arith, ground arith)

  WentOn-suc :
      (k : ℕ)
      → WentOn clock status uid deadline k
      → clock (1 + 2 * k) < deadline
      → verdict uid (status k) ≡ none
      → WentOn clock status uid deadline (k + 1)
  WentOn-suc k before early open_ j less = elim (Bool-cases (ltb j k)) [
    | inl earlier ↦ before j (ground arith)
    | inr now ↦
        let same : k ≡ j = ground arith in
        subst
          (λ (i : ℕ).
            (clock (1 + 2 * i) < deadline)
            × ((s : JobStatus) × (status i ≡ some s)
                × (s.uid ≡ uid)
                × (has_condition "Failed" s.conditions ≡ false)
                × (has_condition "Complete" s.conditions ≡ false)))
          same (early, verdict-none (status k) open_)
  ]

  -- A round from which the loop goes on brings the clock to the deadline or two seconds further.
  round_advances :
      IsClock clock deadline
      → (k fuel : ℕ) → clock (1 + 2 * k) < deadline
      → deadline ≤ clock (1 + 2 * k) + 2000 * suc fuel
      → deadline ≤ clock (1 + 2 * (k + 1)) + 2000 * fuel
  round_advances c k fuel early near = omega (arith, c.forward k, c.slept k)

  abbrev Ends : Option Waited → Type 0
  Ends o = (w : Waited) × (o ≡ some w) × Because clock status uid deadline w

  answered-Ends :
      (k : ℕ) (o : Option Waited) (rest : Option Waited)
      → WentOn clock status uid deadline k
      → clock (1 + 2 * k) < deadline
      → verdict uid (status k) ≡ o
      → (WentOn clock status uid deadline (k + 1) → Ends rest)
      → Ends (or_else clock status uid deadline o rest)
  answered-Ends k none rest before early h ends = ends (WentOn-suc k before early h)
  answered-Ends k (some w) rest before early h ends =
      (w, refl, (k, before, verdict-Shows k (status k) w early refl h))

  -- A round, whatever the rest of the loop does after it.
  round-Ends :
      (k : ℕ) (rest : Option Waited)
      → WentOn clock status uid deadline k
      → (clock (1 + 2 * k) < deadline → WentOn clock status uid deadline (k + 1) → Ends rest)
      → Ends (
          if leb deadline (clock (1 + 2 * k))
          then some timeout
          else or_else clock status uid deadline (verdict uid (status k)) rest)
  round-Ends k rest before later = elim (Bool-cases (leb deadline (clock (1 + 2 * k)))) [
    | inl late ↦ rw late (timeout, refl, (k, before, ground arith))
    | inr early ↦ rw early (
        answered-Ends k (verdict uid (status k)) rest before (ground arith) refl
          (later (ground arith)))
  ]

  wait_loop-Ends :
      IsClock clock deadline
      → (fuel k : ℕ) → WentOn clock status uid deadline k
      → deadline ≤ clock (1 + 2 * k) + 2000 * fuel
      → Ends (wait_loop clock status uid deadline (suc fuel) k)
  unfolding wait_loop
  wait_loop-Ends c zero k before near = round-Ends k _ before (λ early. absurd (omega arith))
  wait_loop-Ends c (suc f) k before near =
      round-Ends k _ before
        (λ early after. wait_loop-Ends c f (k + 1) after (round_advances c k f early near))

-- A wait with a bad budget or no uid is refused. Any other, by a clock that does not go back and
-- sleeps that last as long as asked for, ends within one round for each two seconds and one more. Its
-- result is that of the first round that did not go on: each round before it began before the
-- deadline and read the Job with this uid and neither condition. "complete" and "failed" were then
-- read of the Job with this uid, and "complete" without "Failed"; "uncertain" was a read that failed
-- or showed another uid; "timeout" was a clock at the deadline.
pub wait_for_job-Because :
    (clock : ℕ → ℕ) (status : ℕ → Option JobStatus) (uid : String) (milliseconds fuel : ℕ)
    → IsClock clock (clock 0 + milliseconds)
    → milliseconds ≤ 2000 * fuel
    → ((is_empty uid ≡ true) ⊎ (86400000 < milliseconds))
        × (wait_for_job clock status uid milliseconds (suc fuel) ≡ err bad_wait)
      ⊎ ((w : Waited) × (wait_for_job clock status uid milliseconds (suc fuel) ≡ ok (some w))
          × Because clock status uid (clock 0 + milliseconds) w)
unfolding wait_for_job
wait_for_job-Because clock status uid milliseconds fuel c enough =
    elim (Bool-cases (is_empty uid || not (leb milliseconds 86400000))) [
      | inl bad ↦ inl (ground arith, rw bad refl)
      | inr good ↦
          let (w, returned, because) =
            wait_loop-Ends clock status uid (clock 0 + milliseconds) c fuel 0
              (λ j less. absurd (omega arith)) (omega (arith, c.started)) in
          inr (w, rw good (rw returned refl), because)
    ]
