-- ===== src/Adapter/State/Outbox.antt =====
-- What a committed window does to the outbox: rows are only appended, no source or event is there
-- twice, the count of pending rows grows by the number that `enqueue` returns.
use mathlib.Core.Path.{subst}
use k8s_stack_tooling.Prelude.{
  Bool-cases, inl, inr, ℕ, ◌+◌, ◌≤◌, String, false, Option, none, some, List, [], ◌∷◌, ◌++◌, ◌≡◌,
  refl, suc, sym, ap, ◌∙◌, arith, ◌||◌, str_eq, eq_iff, Result, ok, err, ◌>>=◌, length,
  length-append, append_assoc, append-nil,
}
use k8s_stack_tooling.Adapter.Types.{Record, Scope, Decision, is_log_only, Row}
use k8s_stack_tooling.Adapter.Rows.{
  Tables, StateError, has_source, has_event, conflicts, pending_count, insert_or_ignore,
  insert_excluded, raise_cursor,
}
use k8s_stack_tooling.Adapter.State.{
  Context, source_of, excluded_row, queued_row, enqueue_reported, enqueue_one, enqueue_all, enqueue,
}

-- No source and no event is there twice.
abbrev Unique : List Row → Type 0
Unique [] = Unit
Unique (r ∷ rows) =
    (has_source r.source rows ≡ false) × (has_event r.event_id rows ≡ false) × Unique rows

pub has_source-append :
    (s : String) (xs ys : List Row) → has_source s (xs ++ ys) ≡ (has_source s xs || has_source s ys)
has_source-append s [] ys = refl
has_source-append s (x ∷ xs) ys = ground (arith, has_source-append s xs ys)

has_event-append :
    (e : String) (xs ys : List Row) → has_event e (xs ++ ys) ≡ (has_event e xs || has_event e ys)
has_event-append e [] ys = refl
has_event-append e (x ∷ xs) ys = ground (arith, has_event-append e xs ys)

str_eq_comm : (a b : String) → str_eq a b ≡ str_eq b a
str_eq_comm a b = ground (arith, eq_iff a b, eq_iff b a)

Unique-append :
    (rows : List Row) (r : Row) → Unique rows → conflicts r rows ≡ false → Unique (rows ++ r ∷ [])
Unique-append [] r u h = (refl, refl, tt)
Unique-append (x ∷ rows) r (us, ue, u) h = (
  rw (has_source-append x.source rows (r ∷ [])) (ground (arith, str_eq_comm x.source r.source)),
  rw (has_event-append x.event_id rows (r ∷ []))
      (ground (arith, str_eq_comm x.event_id r.event_id)),
  Unique-append rows r u (ground arith),
)

pub pending_count-append :
    (xs ys : List Row) → pending_count (xs ++ ys) ≡ pending_count xs + pending_count ys
unfolding pending_count
pending_count-append [] ys = omega arith
pending_count-append (x ∷ xs) ys = omega (arith, pending_count-append xs ys)

-- What became of the rows: `added` were appended, of which `n` wait for delivery, out of `offered`
-- records.
pub record Grows (before : List Row) (offered n : ℕ) (after : List Row) : Type 0 where
  pub added : List Row
  pub appended : after ≡ before ++ added
  pub queued : pending_count added ≡ n
  pub bounded : length added ≤ offered
  pub unique : Unique before → Unique after

Grows-refl : (rows : List Row) (offered : ℕ) → Grows rows offered 0 rows
unfolding pending_count
Grows-refl rows offered = record {
  added = [];
  appended = sym (append-nil rows);
  queued = refl;
  bounded = omega arith;
  unique = λ u. u;
}

Grows-one :
    (rows : List Row) (r : Row) (n : ℕ)
    → pending_count (r ∷ []) ≡ n
    → conflicts r rows ≡ false
    → Grows rows 1 n (rows ++ r ∷ [])
Grows-one rows r n h c = record {
  added = r ∷ [];
  appended = refl;
  queued = h;
  bounded = omega arith;
  unique = λ u. Unique-append rows r u c;
}

Grows-trans :
    {a b c : List Row} {i j k m n : ℕ}
    → i + j ≤ k
    → Grows a i m b
    → Grows b j n c
    → Grows a k (m + n) c
Grows-trans {a} room g h = record {
  added = g.added ++ h.added;
  appended = h.appended ∙ ap (λ r. r ++ h.added) g.appended ∙ append_assoc a g.added h.added;
  queued = omega (arith, pending_count-append g.added h.added, g.queued, h.queued);
  bounded = omega (arith, length-append {0} g.added h.added, g.bounded, h.bounded);
  unique = λ u. h.unique (g.unique u);
}

-- What a step of the transaction from the tables `t` did, if it did not raise.
abbrev pub Commits : Tables → ℕ → Result StateError (ℕ × Tables) → Type 0
Commits t offered (ok (n, t')) = Grows t.records offered n t'.records
Commits t offered (err e) = Unit

Commits-ok :
    (t : Tables) (offered : ℕ) (m : Result StateError (ℕ × Tables)) {n : ℕ} {t' : Tables}
    → Commits t offered m
    → m ≡ ok (n, t')
    → Grows t.records offered n t'.records
Commits-ok t offered m g h = subst (Commits t offered) h g

module _ (ctx : Context) (scope : Scope) where
  insert_or_ignore-Grows :
      (row : Row) (t : Tables)
      → row.delivered ≡ 0
      → let (n, t') = insert_or_ignore row t in Grows t.records 1 n t'.records
  unfolding insert_or_ignore pending_count
  insert_or_ignore-Grows row t pending = elim (Bool-cases (conflicts row t.records)) [
    | inl taken ↦ rw taken (Grows-refl t.records 1)
    | inr free ↦ rw free (Grows-one t.records row 1 (rw pending) free)
  ]

  insert_excluded-Commits :
      (source : String) (t : Tables)
      → Commits t 1 (insert_excluded (excluded_row ctx scope source) t)
  unfolding insert_excluded pending_count excluded_row
  insert_excluded-Commits source t =
      elim (Bool-cases (conflicts (excluded_row ctx scope source) t.records)) [
        | inl taken ↦ rw taken tt
        | inr free ↦ rw free (Grows-one t.records (excluded_row ctx scope source) 0 refl free)
      ]

  enqueue_reported-Commits :
      (labels : List (String × String)) (r : Record) (d : Decision) (t : Tables)
      (links : Option (Option String × Option String))
      → Commits t 1 (enqueue_reported ctx scope labels r d t links)
  unfolding enqueue_reported queued_row
  enqueue_reported-Commits labels r d t none = tt
  enqueue_reported-Commits labels r d t (some links) = insert_or_ignore-Grows _ _ refl

  enqueue_one-Commits :
      (labels : List (String × String)) (r : Record) (t : Tables)
      → Commits t 1 (enqueue_one ctx scope labels r t)
  unfolding enqueue_one
  enqueue_one-Commits labels r t =
      elim (Bool-cases (has_source (source_of ctx scope r) t.records)) [
        | inl known ↦ rw known (Grows-refl t.records 1)
        | inr new ↦ rw new (elim (Bool-cases (is_log_only (ctx.evaluate scope r).action)) [
          | inl excluded ↦ rw excluded (insert_excluded-Commits (source_of ctx scope r) t)
          | inr reported ↦
              rw reported
                (enqueue_reported-Commits labels r (ctx.evaluate scope r) t (ctx.log_links r))
        ])
      ]

  pub enqueue_all-Commits :
      (labels : List (String × String)) (rs : List Record) (t : Tables)
      → Commits t (length rs) (enqueue_all ctx scope labels rs t)
  unfolding enqueue_all
  enqueue_all-Commits labels [] t = Grows-refl t.records 0
  enqueue_all-Commits labels (r ∷ rs) t =
      first (enqueue_one ctx scope labels r t) (enqueue_one-Commits labels r t)
        (enqueue_all-Commits labels rs)
    where
      second :
          (n : ℕ) (t' : Tables) (m : Result StateError (ℕ × Tables))
          → Grows t.records 1 n t'.records
          → Commits t' (length rs) m
          → Commits t (suc (length rs)) (m >>= λ (k, t''). ok (n + k, t''))
      second n t' (err e) g h = tt
      second n t' (ok (k, t'')) g h = Grows-trans (omega arith) g h

      first :
          (m : Result StateError (ℕ × Tables))
          → Commits t 1 m
          → ((t' : Tables) → Commits t' (length rs) (enqueue_all ctx scope labels rs t'))
          → Commits t
              (suc (length rs))
              (m >>= λ (n, t'). enqueue_all ctx scope labels rs t' >>= λ (k, t''). ok (n + k, t''))
      first (err e) g ih = tt
      first (ok (n, t')) g ih = second n t' (enqueue_all ctx scope labels rs t') g (ih t')

  -- A window that is committed appends rows to the outbox and changes none of those that are there.
  -- It appends at most one for each record, and `n` of them wait for delivery, where `n` is what
  -- `enqueue` returns. If no source and no event was there twice, none is afterwards.
  pub enqueue-Grows :
      (labels : List (String × String)) (rs : List Record) (upper : ℕ) (t : Tables) {n : ℕ}
      {t' : Tables}
      → enqueue ctx scope labels rs upper t ≡ ok (n, t')
      → Grows t.records (length rs) n t'.records
  unfolding enqueue
  enqueue-Grows labels rs upper t h =
      Commits-ok t (length rs) (enqueue ctx scope labels rs upper t)
        (commit (enqueue_all ctx scope labels rs t) (enqueue_all-Commits labels rs t)) h
    where
      commit :
          (m : Result StateError (ℕ × Tables))
          → Commits t (length rs) m
          → Commits t
              (length rs)
              (m >>= λ (k, s). ok (k, record s { cursors = raise_cursor scope.id upper s.cursors }))
      commit (err e) g = tt
      commit (ok (k, s)) g = g
