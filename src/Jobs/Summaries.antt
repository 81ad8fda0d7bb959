-- ===== src/Jobs/Summaries.antt =====
-- What a job summary was made of.
use k8s_stack_tooling.Prelude.{
  ℕ, ◌+◌, ◌≤◌, String, Bool, true, false, Option, none, some, List, [], ◌∷◌, ◌≡◌, refl, ◌↔◌, arith,
  not, ◌&&◌, ◌||◌, any, leb, Bool-cases, inl, inr, Result, ok,
}
use k8s_stack_tooling.Jobs.Submit.{JobError, is_empty}
use k8s_stack_tooling.Jobs.Summary.{
  Pod, LogSummary, available, of_redactor, owns, only_pod, summary_of, bounded, summary_of_pod,
  read_job_summary,
}

ok_injective :
    {T : Type 0} {a b : LogSummary T}
    → ◌≡◌ {A = Result JobError (LogSummary T)} (ok a) (ok b)
    → a ≡ b
ok_injective h = cc

module _ {Raw T : Type 0} (pods : Option (List Pod)) (log : String → ℕ → ℕ → Option Raw)
    (size : Raw → ℕ) (decode : Raw → Option String) (summarize : String → Option T)
    (uid : String) where
  -- What a summary was made of: the log of the one pod of the Job, which this very Job controls,
  -- within the budget.
  pub record IsMadeOf (max_bytes : ℕ) (s : T) : Type 0 where
    pub pod : Pod
    pub raw : Raw
    pub text : String
    pub alone : pods ≡ some (pod ∷ [])
    pub owned : any (owns uid) pod.owners ≡ true
    pub logged : log pod.name max_bytes (max_bytes + 1) ≡ some raw
    pub small : size raw ≤ max_bytes
    pub decoded : decode raw ≡ some text
    pub redacted : summarize text ≡ some s

  IsMadeOf-redacted :
      (p : Pod) (max_bytes : ℕ) (s : T) (raw : Raw) (t : String) (o : Option T)
      → pods ≡ some (p ∷ [])
      → any (owns uid) p.owners ≡ true
      → log p.name max_bytes (max_bytes + 1) ≡ some raw
      → size raw ≤ max_bytes
      → decode raw ≡ some t
      → summarize t ≡ o
      → of_redactor o ≡ available s
      → IsMadeOf max_bytes s
  IsMadeOf-redacted p max_bytes s raw t none alone owned logged small decoded e h = cc
  IsMadeOf-redacted p max_bytes s raw t (some s2) alone owned logged small decoded e h = record {
    pod = p;
    raw = raw;
    text = t;
    alone = alone;
    owned = owned;
    logged = logged;
    small = small;
    decoded = decoded;
    redacted = cc;
  }

  summary-IsMadeOf :
      (p : Pod) (max_bytes : ℕ) (s : T) (raw : Raw) (d : Option String)
      → pods ≡ some (p ∷ [])
      → any (owns uid) p.owners ≡ true
      → log p.name max_bytes (max_bytes + 1) ≡ some raw
      → size raw ≤ max_bytes
      → decode raw ≡ d
      → summary_of pods log size decode summarize uid d ≡ available s
      → IsMadeOf max_bytes s
  summary-IsMadeOf p max_bytes s raw none alone owned logged small e h = cc
  summary-IsMadeOf p max_bytes s raw (some t) alone owned logged small e h =
      IsMadeOf-redacted p max_bytes s raw t (summarize t) alone owned logged small e refl h

  bounded-IsMadeOf :
      (p : Pod) (max_bytes : ℕ) (s : T) (o : Option Raw)
      → pods ≡ some (p ∷ [])
      → any (owns uid) p.owners ≡ true
      → log p.name max_bytes (max_bytes + 1) ≡ o
      → bounded pods log size decode summarize uid max_bytes o ≡ available s
      → IsMadeOf max_bytes s
  unfolding bounded
  bounded-IsMadeOf p max_bytes s none alone owned logged h = cc
  bounded-IsMadeOf p max_bytes s (some raw) alone owned logged h =
      elim (Bool-cases (leb (size raw) max_bytes)) [
        | inr large ↦ cc (rw large at h)
        | inl small ↦
            summary-IsMadeOf p max_bytes s raw (decode raw) alone owned logged (ground arith) refl
              (rw small at h)
      ]

  summary_of_pod-IsMadeOf :
      (max_bytes : ℕ) (s : T) (o : Option (List Pod))
      → pods ≡ o
      → summary_of_pod pods log size decode summarize uid max_bytes
          (only_pod pods log size decode summarize uid o)
        ≡ available s
      → IsMadeOf max_bytes s
  unfolding only_pod summary_of_pod
  summary_of_pod-IsMadeOf max_bytes s none e h = cc
  summary_of_pod-IsMadeOf max_bytes s (some []) e h = cc
  summary_of_pod-IsMadeOf max_bytes s (some (p ∷ q ∷ ps)) e h = cc
  summary_of_pod-IsMadeOf max_bytes s (some (p ∷ [])) e h =
      elim (Bool-cases (any (owns uid) p.owners)) [
        | inl owned ↦ bounded-IsMadeOf p max_bytes s _ e owned refl (rw owned at h)
        | inr foreign ↦ cc (rw foreign at h)
      ]

  summary_of_pod_complete :
      (max_bytes : ℕ) (s : T)
      → IsMadeOf max_bytes s
      → summary_of_pod pods log size decode summarize uid max_bytes
          (only_pod pods log size decode summarize uid pods)
        ≡ available s
  unfolding only_pod summary_of_pod bounded
  summary_of_pod_complete max_bytes s m =
      rw m.alone (rw m.owned (rw m.logged (rw fits (rw m.decoded (rw m.redacted refl)))))
    where
      fits : leb (size m.raw) max_bytes ≡ true
      fits = ground (arith, m.small)

  -- A summary is available exactly when the uid, the container and the budget are allowed, the Job
  -- has one pod, this very Job controls it, its log was read, is within the budget and has a text,
  -- and the redactor made the summary of that text.
  pub read_job_summary-IsMadeOf :
      (container : String) (max_bytes : ℕ) (s : T)
      → (read_job_summary pods log size decode summarize uid container max_bytes ≡ ok (available s))
        ↔ ((is_empty uid ≡ false)
            × (is_empty container ≡ false)
            × (1 ≤ max_bytes)
            × (max_bytes ≤ 1048576)
            × IsMadeOf max_bytes s)
  unfolding read_job_summary
  read_job_summary-IsMadeOf container max_bytes s = (to, from)
    where
      refused : Bool
      refused = is_empty uid || is_empty container || not (leb 1 max_bytes && leb max_bytes 1048576)

      to :
          read_job_summary pods log size decode summarize uid container max_bytes ≡ ok (available s)
          → (is_empty uid ≡ false)
            × (is_empty container ≡ false)
            × (1 ≤ max_bytes)
            × (max_bytes ≤ 1048576)
            × IsMadeOf max_bytes s
      to h = elim (Bool-cases refused) [
        | inl bad ↦ cc (rw bad at h)
        | inr good ↦ (
          ground arith,
          ground arith,
          ground arith,
          ground arith,
          summary_of_pod-IsMadeOf max_bytes s pods refl (ok_injective (rw good at h)),
        )
      ]

      from :
          (is_empty uid ≡ false)
            × (is_empty container ≡ false)
            × (1 ≤ max_bytes)
            × (max_bytes ≤ 1048576)
            × IsMadeOf max_bytes s
          → read_job_summary pods log size decode summarize uid container max_bytes
            ≡ ok (available s)
      from (named, contained, low, high, m) =
          rw good (rw (summary_of_pod_complete max_bytes s m) refl)
        where
          good : refused ≡ false
          good = ground arith
