-- ===== src/Adapter/State/Identities.antt =====
-- What a later window does not change: the identities of messages, and what a cursor has reached.
use mathlib.Core.Path.{subst}
use k8s_stack_tooling.Prelude.{
  Bool-cases, inl, inr, ℕ, ◌+◌, ◌≤◌, max, String, Option, none, some, List, [], ◌∷◌, ◌++◌, ◌≡◌, ◌≢◌,
  refl, ap, ◌∙◌, arith, eq_iff, eq_refl, Result, ok, err, ◌>>=◌,
}
use k8s_stack_tooling.Adapter.Types.{Record, Scope, Decision, is_log_only, Row}
use k8s_stack_tooling.Adapter.Rows.{
  Tables, Mapping, StateError, has_source, conflicts, insert_or_ignore, insert_excluded,
  find_identity, insert_message, raise_cursor, cursor,
}
use k8s_stack_tooling.Adapter.State.{
  Context, source_of, excluded_row, enqueue_reported, enqueue_one, enqueue_all, enqueue,
}

-- An instant that a cursor has reached is never lost, and the cursors of other scopes stay.
cursor-raise_cursor :
    (scope other : String) (upper initial : ℕ) (cs : List (String × ℕ))
    → (upper ≤ cursor scope initial (raise_cursor scope upper cs))
      × ((u : ℕ)
          → u ≤ upper
          → cursor scope u cs ≤ cursor scope initial (raise_cursor scope upper cs))
      × (other ≢ scope
          → cursor other initial (raise_cursor scope upper cs) ≡ cursor other initial cs)
unfolding cursor raise_cursor
cursor-raise_cursor scope other upper initial [] = (
  ground (arith, eq_refl scope),
  λ u h. ground (arith, eq_refl scope),
  λ ne. ground (arith, eq_iff scope other),
)
cursor-raise_cursor scope other upper initial ((s, u) ∷ cs) =
    let (a, b, c) = cursor-raise_cursor scope other upper initial cs in
    (
      ground arith,
      λ v h. ground (arith, b v h),
      λ ne. ground (arith, eq_iff s other, eq_iff s scope, c ne),
    )

find_identity-append_some :
    (scope digest : String) (ms : List Mapping) (m : Mapping) {i : String}
    → find_identity scope digest ms ≡ some i
    → find_identity scope digest (ms ++ m ∷ []) ≡ some i
unfolding find_identity
find_identity-append_some scope digest [] m h = cc
find_identity-append_some scope digest (x ∷ ms) m {i} h =
    ground (arith, find_identity-append_some scope digest ms m {i = i})

find_identity-insert_message :
    (scope digest : String) (ms : List Mapping) (m : Mapping) {i : String}
    → find_identity scope digest ms ≡ some i
    → find_identity scope digest (insert_message m ms) ≡ some i
unfolding insert_message
find_identity-insert_message scope digest ms m {i} h =
    ground (arith, find_identity-append_some scope digest ms m {i = i})

-- A property of the tables that a transaction reaches, if it does not raise.
abbrev pub After : (Tables → Type 0) → Result StateError (ℕ × Tables) → Type 0
After P (ok (n, t)) = P t
After P (err e) = Unit

module _ (ctx : Context) (scope : Scope) where
  -- What each record keeps, the loop keeps.
  enqueue_all-After :
      (P : Tables → Type 0)
      → ((labels : List (String × String)) (r : Record) (t : Tables)
          → P t
          → After P (enqueue_one ctx scope labels r t))
      → (labels : List (String × String)) (rs : List Record) (t : Tables) → P t
      → After P (enqueue_all ctx scope labels rs t)
  unfolding enqueue_all
  enqueue_all-After P step labels [] t p = p
  enqueue_all-After P step labels (r ∷ rs) t p =
      first (enqueue_one ctx scope labels r t) (step labels r t p)
        (enqueue_all-After P step labels rs)
    where
      second :
          (n : ℕ) (m : Result StateError (ℕ × Tables))
          → After P m
          → After P (m >>= λ (k, t''). ok (n + k, t''))
      second n (err e) h = tt
      second n (ok (k, t'')) h = h

      first :
          (m : Result StateError (ℕ × Tables))
          → After P m
          → ((t' : Tables) → P t' → After P (enqueue_all ctx scope labels rs t'))
          → After P
              (m >>= λ (n, t'). enqueue_all ctx scope labels rs t' >>= λ (k, t''). ok (n + k, t''))
      first (err e) h ih = tt
      first (ok (n, t')) h ih = second n (enqueue_all ctx scope labels rs t') (ih t' h)

  messages-insert_or_ignore :
      (row : Row) (t : Tables) → (insert_or_ignore row t).1.messages ≡ t.messages
  unfolding insert_or_ignore
  messages-insert_or_ignore row t = ground arith

  abbrev HasIdentity : String → String → String → Tables → Type 0
  HasIdentity s digest identity t = find_identity s digest t.messages ≡ some identity

  enqueue_reported-HasIdentity :
      (s digest identity : String) (labels : List (String × String)) (r : Record) (d : Decision)
      (t : Tables) (links : Option (Option String × Option String))
      → HasIdentity s digest identity t
      → After (HasIdentity s digest identity) (enqueue_reported ctx scope labels r d t links)
  unfolding enqueue_reported
  enqueue_reported-HasIdentity s digest identity labels r d t none h = tt
  enqueue_reported-HasIdentity s digest identity labels r d t (some links) h =
      rw messages-insert_or_ignore (find_identity-insert_message s digest t.messages _ h)

  enqueue_one-HasIdentity :
      (s digest identity : String) (labels : List (String × String)) (r : Record) (t : Tables)
      → HasIdentity s digest identity t
      → After (HasIdentity s digest identity) (enqueue_one ctx scope labels r t)
  unfolding enqueue_one insert_excluded
  enqueue_one-HasIdentity s digest identity labels r t h =
      elim (Bool-cases (has_source (source_of ctx scope r) t.records)) [
        | inl known ↦ rw known h
        | inr new ↦ rw new (elim (Bool-cases (is_log_only (ctx.evaluate scope r).action)) [
          | inl excluded ↦
              rw excluded
                (elim (Bool-cases
                  (conflicts (excluded_row ctx scope (source_of ctx scope r)) t.records)) [
                    | inl taken ↦ rw taken tt
                    | inr free ↦ rw free h
                  ])
          | inr reported ↦ rw reported (
              enqueue_reported-HasIdentity s digest identity labels r (ctx.evaluate scope r) t
                (ctx.log_links r) h)
        ])
      ]

  -- An identity that a message was given is never changed by a later window: its occurrences stay
  -- in one group.
  pub enqueue-HasIdentity :
      (s digest identity : String) (labels : List (String × String)) (rs : List Record) (upper : ℕ)
      (t : Tables) {n : ℕ} {t' : Tables}
      → find_identity s digest t.messages ≡ some identity
      → enqueue ctx scope labels rs upper t ≡ ok (n, t')
      → find_identity s digest t'.messages ≡ some identity
  unfolding enqueue
  enqueue-HasIdentity s digest identity labels rs upper t h e =
      subst (After (HasIdentity s digest identity)) e (
        commit (enqueue_all ctx scope labels rs t) (
          enqueue_all-After (HasIdentity s digest identity)
            (enqueue_one-HasIdentity s digest identity) labels rs t h))
    where
      commit :
          (m : Result StateError (ℕ × Tables))
          → After (HasIdentity s digest identity) m
          → After
              (HasIdentity s digest identity)
              (m >>= λ (k, u). ok (k, record u { cursors = raise_cursor scope.id upper u.cursors }))
      commit (err x) g = tt
      commit (ok (k, u)) g = g

-- From an instant not before `initial`, a committed window takes the cursor to its end or leaves it
-- further on.
pub cursor-raise_cursor_eq :
    (scope : String) (upper initial : ℕ) (cs : List (String × ℕ))
    → initial ≤ upper
    → cursor scope initial (raise_cursor scope upper cs) ≡ max (cursor scope initial cs) upper
unfolding cursor raise_cursor
cursor-raise_cursor_eq scope upper initial [] h = ground (arith, eq_refl scope)
cursor-raise_cursor_eq scope upper initial ((s, u) ∷ cs) h =
    ground (arith, cursor-raise_cursor_eq scope upper initial cs)

module _ (ctx : Context) (scope : Scope) where
  abbrev SameCursors : Tables → Tables → Type 0
  SameCursors t u = u.cursors ≡ t.cursors

  cursors-insert_or_ignore :
      (row : Row) (t : Tables) → (insert_or_ignore row t).1.cursors ≡ t.cursors
  unfolding insert_or_ignore
  cursors-insert_or_ignore row t = ground arith

  enqueue_reported-SameCursors :
      (labels : List (String × String)) (r : Record) (d : Decision) (t : Tables)
      (links : Option (Option String × Option String))
      → After (SameCursors t) (enqueue_reported ctx scope labels r d t links)
  unfolding enqueue_reported
  enqueue_reported-SameCursors labels r d t none = tt
  enqueue_reported-SameCursors labels r d t (some links) = cursors-insert_or_ignore _ _

  enqueue_one-SameCursors :
      (labels : List (String × String)) (r : Record) (t : Tables)
      → After (SameCursors t) (enqueue_one ctx scope labels r t)
  unfolding enqueue_one insert_excluded
  enqueue_one-SameCursors labels r t =
      elim (Bool-cases (has_source (source_of ctx scope r) t.records)) [
        | inl known ↦ rw known refl
        | inr new ↦ rw new (elim (Bool-cases (is_log_only (ctx.evaluate scope r).action)) [
          | inl excluded ↦
              rw excluded
                (elim (Bool-cases
                  (conflicts (excluded_row ctx scope (source_of ctx scope r)) t.records)) [
                    | inl taken ↦ rw taken tt
                    | inr free ↦ rw free refl
                  ])
          | inr reported ↦
              rw reported
                (enqueue_reported-SameCursors labels r (ctx.evaluate scope r) t (ctx.log_links r))
        ])
      ]

  After-trans :
      (t u : Tables) (m : Result StateError (ℕ × Tables))
      → u.cursors ≡ t.cursors
      → After (SameCursors u) m
      → After (SameCursors t) m
  After-trans t u (ok (n, v)) h g = g ∙ h
  After-trans t u (err e) h g = tt

  -- A committed window moves the cursor of its own scope by `raise_cursor`.
  pub cursors-enqueue :
      (labels : List (String × String)) (rs : List Record) (upper : ℕ) (t : Tables) {n : ℕ}
      {t' : Tables}
      → enqueue ctx scope labels rs upper t ≡ ok (n, t')
      → t'.cursors ≡ raise_cursor scope.id upper t.cursors
  unfolding enqueue
  cursors-enqueue labels rs upper t e =
      subst (After (λ u. u.cursors ≡ raise_cursor scope.id upper t.cursors)) e (
        commit (enqueue_all ctx scope labels rs t) (
          enqueue_all-After ctx scope (SameCursors t)
            (λ l r u h.
              After-trans t u (enqueue_one ctx scope l r u) h (enqueue_one-SameCursors l r u))
            labels rs t refl))
    where
      commit :
          (m : Result StateError (ℕ × Tables))
          → After (SameCursors t) m
          → After
              (λ u. u.cursors ≡ raise_cursor scope.id upper t.cursors)
              (m >>= λ (k, u). ok (k, record u { cursors = raise_cursor scope.id upper u.cursors }))
      commit (err x) g = tt
      commit (ok (k, u)) g = ap (raise_cursor scope.id upper) g
