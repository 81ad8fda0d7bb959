-- ===== src/Adapter/State/Replay.antt =====
-- A source that was read is there for good, so that a window that is read again adds nothing.
use mathlib.Core.Path.{subst}
use k8s_stack_tooling.Prelude.{
  Bool-cases, inl, inr, ℕ, ◌+◌, String, true, false, Option, none, some, List, [], ◌∷◌, ◌++◌, ◌≡◌,
  refl, arith, eq_iff, Result, ok, err, ◌>>=◌, length,
}
use k8s_stack_tooling.Value.{text_in}
use k8s_stack_tooling.Adapter.Types.{Record, Scope, Decision, is_log_only, Row}
use k8s_stack_tooling.Adapter.Rows.{
  Tables, StateError, has_source, has_event, conflicts, insert_or_ignore, insert_excluded,
  raise_cursor,
}
use k8s_stack_tooling.Adapter.State.{
  Context, source_of, event_of, excluded_row, queued_row, enqueue_reported, enqueue_one,
  enqueue_all, enqueue,
}
use k8s_stack_tooling.Adapter.State.Identities.{After}
use k8s_stack_tooling.Adapter.State.Outbox.{Commits, enqueue_all-Commits, has_source-append}

-- Two of these sources that are different have different events.
abbrev pub AreFaithful : Context → Scope → List String → Type 0
AreFaithful ctx scope sources =
    (a b : String)
    → text_in a sources ≡ true
    → text_in b sources ≡ true
    → event_of ctx scope a ≡ event_of ctx scope b
    → a ≡ b

module _ (ctx : Context) (scope : Scope) (sources : List String) where
  -- The event of a row is that of its source, which is one of these.
  abbrev pub IsKeyed : List Row → Type 0
  IsKeyed [] = Unit
  IsKeyed (r ∷ rows) =
      (r.event_id ≡ event_of ctx scope r.source) × (text_in r.source sources ≡ true) × IsKeyed rows

  -- The sources of the records are among these.
  abbrev pub AreListed : List Record → Type 0
  AreListed [] = Unit
  AreListed (r ∷ rs) = (text_in (source_of ctx scope r) sources ≡ true) × AreListed rs

  IsKeyed-append :
      (rows : List Row) (r : Row)
      → IsKeyed rows
      → r.event_id ≡ event_of ctx scope r.source
      → text_in r.source sources ≡ true
      → IsKeyed (rows ++ r ∷ [])
  IsKeyed-append [] r k h listed = (h, listed, tt)
  IsKeyed-append (x ∷ rows) r k h listed = (k.0, k.1, IsKeyed-append rows r k.2 h listed)

module _ (ctx : Context) (scope : Scope) where
  -- All these records have been read.
  abbrev Known : List Record → List Row → Type 0
  Known [] rows = Unit
  Known (r ∷ rs) rows = (has_source (source_of ctx scope r) rows ≡ true) × Known rs rows

  Known-append : (rs : List Record) (rows more : List Row) → Known rs rows → Known rs (rows ++ more)
  Known-append [] rows more h = tt
  Known-append (r ∷ rs) rows more h = (rw has_source-append (rw h.0), Known-append rs rows more h.1)

  -- A window that is known adds nothing.
  enqueue_all-Known :
      (labels : List (String × String)) (rs : List Record) (t : Tables)
      → Known rs t.records
      → enqueue_all ctx scope labels rs t ≡ ok (0, t)
  unfolding enqueue_all enqueue_one
  enqueue_all-Known labels [] t h = refl
  enqueue_all-Known labels (r ∷ rs) t h = rw h.0 (rw (enqueue_all-Known labels rs t h.1))

-- The sources do not depend on the rules and the links.
Known-later :
    (ctx : Context) (scope : Scope) (evaluate : Scope → Record → Decision)
    (log_links : Record → Option (Option String × Option String)) (rs : List Record)
    (rows : List Row)
    → Known ctx scope rs rows
    → Known (record ctx { evaluate = evaluate; log_links = log_links }) scope rs rows
unfolding source_of
Known-later ctx scope evaluate log_links [] rows h = tt
Known-later ctx scope evaluate log_links (r ∷ rs) rows h =
    (h.0, Known-later ctx scope evaluate log_links rs rows h.1)

module _ (ctx : Context) (scope : Scope) (sources : List String)
    (faithful : AreFaithful ctx scope sources) where
  has_event-has_source :
      (source : String) (rows : List Row)
      → IsKeyed ctx scope sources rows
      → text_in source sources ≡ true
      → has_event (event_of ctx scope source) rows ≡ true
      → has_source source rows ≡ true
  has_event-has_source source [] k listed h = h
  has_event-has_source source (x ∷ rows) k listed h = ground (
    arith,
    has_event-has_source source rows k.2 listed,
    eq_iff x.event_id (event_of ctx scope source),
    eq_iff x.source source,
    faithful x.source source k.1 listed,
  )

  IsKnown : Record → Tables → Type 0
  IsKnown r t =
      IsKeyed ctx scope sources t.records × (has_source (source_of ctx scope r) t.records ≡ true)

  -- A row for a source that is not there is taken.
  no_conflict :
      (row : Row) (rows : List Row)
      → IsKeyed ctx scope sources rows
      → row.event_id ≡ event_of ctx scope row.source
      → text_in row.source sources ≡ true
      → has_source row.source rows ≡ false
      → conflicts row rows ≡ false
  no_conflict row rows k e listed new =
      rw e (ground (arith, has_event-has_source row.source rows k listed))

  append-IsKnown :
      (r : Record) (row : Row) (t : Tables)
      → row.source ≡ source_of ctx scope r
      → row.event_id ≡ event_of ctx scope row.source
      → IsKeyed ctx scope sources t.records
      → text_in (source_of ctx scope r) sources ≡ true
      → IsKnown r (record t { records = t.records ++ row ∷ [] })
  unfolding IsKnown
  append-IsKnown r row t is_source e k listed = (
    IsKeyed-append ctx scope sources t.records row k e (rw is_source listed),
    rw has_source-append (ground (arith, eq_iff row.source (source_of ctx scope r))),
  )

  insert_or_ignore-IsKnown :
      (r : Record) (row : Row) (t : Tables)
      → row.source ≡ source_of ctx scope r
      → row.event_id ≡ event_of ctx scope row.source
      → IsKeyed ctx scope sources t.records
      → has_source (source_of ctx scope r) t.records ≡ false
      → text_in (source_of ctx scope r) sources ≡ true
      → IsKnown r (insert_or_ignore row t).1
  unfolding insert_or_ignore
  insert_or_ignore-IsKnown r row t is_source e k new listed =
      rw (no_conflict row t.records k e (rw is_source listed) (rw is_source new))
        (append-IsKnown r row t is_source e k listed)

  enqueue_reported-IsKnown :
      (labels : List (String × String)) (r : Record) (d : Decision) (t : Tables)
      (links : Option (Option String × Option String))
      → IsKeyed ctx scope sources t.records
      → has_source (source_of ctx scope r) t.records ≡ false
      → text_in (source_of ctx scope r) sources ≡ true
      → After (IsKnown r) (enqueue_reported ctx scope labels r d t links)
  unfolding enqueue_reported queued_row
  enqueue_reported-IsKnown labels r d t none k new listed = tt
  enqueue_reported-IsKnown labels r d t (some links) k new listed =
      insert_or_ignore-IsKnown r _ _ refl refl k new listed

  enqueue_one-IsKnown :
      (labels : List (String × String)) (r : Record) (t : Tables)
      → IsKeyed ctx scope sources t.records
      → text_in (source_of ctx scope r) sources ≡ true
      → After (IsKnown r) (enqueue_one ctx scope labels r t)
  unfolding enqueue_one
  enqueue_one-IsKnown labels r t k listed =
      elim (Bool-cases (has_source (source_of ctx scope r) t.records)) [
        | inl known ↦ rw known (unfold IsKnown in (k, known))
        | inr new ↦ rw new (elim (Bool-cases (is_log_only (ctx.evaluate scope r).action)) [
          | inl excluded ↦ rw excluded (
              unfold insert_excluded excluded_row in
              rw
                (no_conflict (excluded_row ctx scope (source_of ctx scope r)) t.records k refl
                  listed new)
                (append-IsKnown r (excluded_row ctx scope (source_of ctx scope r)) t refl refl k
                  listed))
          | inr reported ↦ rw reported (
              enqueue_reported-IsKnown labels r (ctx.evaluate scope r) t (ctx.log_links r) k new
                listed)
        ])
      ]

  -- What the loop has read is there afterwards.
  abbrev AllKnown : List Record → Tables → Type 0
  AllKnown rs t = IsKeyed ctx scope sources t.records × Known ctx scope rs t.records

  enqueue_all-AllKnown :
      (labels : List (String × String)) (rs : List Record) (t : Tables)
      → IsKeyed ctx scope sources t.records
      → AreListed ctx scope sources rs
      → After (AllKnown rs) (enqueue_all ctx scope labels rs t)
  unfolding enqueue_all IsKnown
  enqueue_all-AllKnown labels [] t k all = (k, tt)
  enqueue_all-AllKnown labels (r ∷ rs) t k (listed, all) =
      first (enqueue_one ctx scope labels r t) (enqueue_one-IsKnown labels r t k listed)
        (λ t' k'. enqueue_all-AllKnown labels rs t' k' all)
        (enqueue_all-Commits ctx scope labels rs)
    where
      second :
          (n : ℕ) (t' : Tables) (m : Result StateError (ℕ × Tables))
          → has_source (source_of ctx scope r) t'.records ≡ true
          → After (AllKnown rs) m
          → Commits t' (length rs) m
          → After (AllKnown (r ∷ rs)) (m >>= λ (i, t''). ok (n + i, t''))
      second n t' (err e) h a g = tt
      second n t' (ok (i, t'')) h a g = (a.0, (rw (g.appended, has_source-append) (rw h), a.1))

      first :
          (m : Result StateError (ℕ × Tables))
          → After (IsKnown r) m
          → ((t' : Tables)
              → IsKeyed ctx scope sources t'.records
              → After (AllKnown rs) (enqueue_all ctx scope labels rs t'))
          → ((t' : Tables) → Commits t' (length rs) (enqueue_all ctx scope labels rs t'))
          → After
              (AllKnown (r ∷ rs))
              (m >>= λ (n, t'). enqueue_all ctx scope labels rs t' >>= λ (i, t''). ok (n + i, t''))
      first (err e) h ih g = tt
      first (ok (n, t')) h ih g =
          second n t' (enqueue_all ctx scope labels rs t') h.1 (ih t' h.0) (g t')

  commit-AllKnown :
      (rs : List Record) (upper : ℕ) (m : Result StateError (ℕ × Tables))
      → After (AllKnown rs) m
      → After
          (AllKnown rs)
          (m >>= λ (k, u). ok (k, record u { cursors = raise_cursor scope.id upper u.cursors }))
  commit-AllKnown rs upper (err x) g = tt
  commit-AllKnown rs upper (ok (k, u)) g = g

  -- If different sources among those of the rows and of the window have different events, and the
  -- event of each row is that of its source, a window that was committed and is read again adds
  -- nothing to the outbox, also when the rules, the links and the labels have changed in between:
  -- only the cursor may rise.
  pub enqueue_again :
      (labels labels' : List (String × String)) (rs : List Record) (upper upper' : ℕ)
      (evaluate : Scope → Record → Decision)
      (log_links : Record → Option (Option String × Option String)) (t : Tables) {n : ℕ}
      {t' : Tables}
      → IsKeyed ctx scope sources t.records
      → AreListed ctx scope sources rs
      → enqueue ctx scope labels rs upper t ≡ ok (n, t')
      → enqueue
          (record ctx { evaluate = evaluate; log_links = log_links })
          scope
          labels'
          rs
          upper'
          t'
        ≡ ok (0, record t' { cursors = raise_cursor scope.id upper' t'.cursors })
  unfolding enqueue
  enqueue_again labels labels' rs upper upper' evaluate log_links t {n} {t'} k all e =
      let known = subst (After (AllKnown rs)) e (
        commit-AllKnown rs upper (enqueue_all ctx scope labels rs t)
          (enqueue_all-AllKnown labels rs t k all)) in
      let later : Context = record ctx { evaluate = evaluate; log_links = log_links } in
      rw (
        enqueue_all-Known later scope labels' rs t'
          (Known-later ctx scope evaluate log_links rs t'.records known.1))
