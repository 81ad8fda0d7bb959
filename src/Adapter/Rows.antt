-- ===== src/Adapter/Rows.antt =====
-- state.py: the tables of the outbox and the statements on them.
-- A table is the list of its rows in the order of rowid. Cursors are instants, whose stamps the
-- source compares as texts of one fixed form.
use k8s_stack_tooling.Prelude.{
  ℕ, ◌+◌, String, Bool, false, Option, none, some, List, [], ◌∷◌, ◌++◌, ◌==◌, max, ◌&&◌, ◌||◌,
  is_some, if◌then◌else◌, str_eq, Result, ok, err,
}
use k8s_stack_tooling.Adapter.Types.{Row}

-- A key of two texts, (scope, digest), with the identity that it stands for.
pub record Mapping : Type 0 where
  pub scope : String
  pub digest : String
  pub identity : String

pub record Tables : Type 0 where
  pub cursors : List (String × ℕ)
  pub messages : List Mapping
  pub templates : List Mapping
  pub records : List Row

-- What ends a transaction: a refused INSERT, or a text that `log_links` cannot quote.
pub data StateError : Type 0 where
  integrity_error value_error : StateError

abbrev pub has_source : String → List Row → Bool
has_source source [] = false
has_source source (r ∷ rows) = str_eq r.source source || has_source source rows

abbrev pub has_event : String → List Row → Bool
has_event event [] = false
has_event event (r ∷ rows) = str_eq r.event_id event || has_event event rows

-- The row breaks PRIMARY KEY or UNIQUE.
abbrev pub conflicts : Row → List Row → Bool
conflicts r rows = has_source r.source rows || has_event r.event_id rows

-- SELECT identity FROM messages WHERE scope=? AND digest=?
unfoldable pub find_identity : String → String → List Mapping → Option String
find_identity scope digest [] = none
find_identity scope digest (m ∷ ms) =
    if str_eq m.scope scope && str_eq m.digest digest
    then some m.identity
    else find_identity scope digest ms

-- INSERT OR IGNORE INTO messages, whose key is (scope, digest)
unfoldable pub insert_message : Mapping → List Mapping → List Mapping
unfolding find_identity
insert_message m ms = if is_some (find_identity m.scope m.digest ms) then ms else ms ++ m ∷ []

-- The key of templates is the whole row.
abbrev has_template : Mapping → List Mapping → Bool
has_template t [] = false
has_template t (m ∷ ms) =
    (str_eq m.scope t.scope && str_eq m.digest t.digest && str_eq m.identity t.identity)
    || has_template t ms

unfoldable pub insert_template : Mapping → List Mapping → List Mapping
insert_template t ms = if has_template t ms then ms else ms ++ t ∷ []

-- `labels[record.message]`
unfoldable pub label_of : String → List (String × String) → Option String
label_of message [] = none
label_of message ((m, label) ∷ labels) =
    if str_eq m message then some label else label_of message labels

-- INSERT ... ON CONFLICT(scope) DO UPDATE SET upper=MAX(upper, excluded.upper)
unfoldable pub raise_cursor : String → ℕ → List (String × ℕ) → List (String × ℕ)
raise_cursor scope upper [] = (scope, upper) ∷ []
raise_cursor scope upper ((s, u) ∷ cs) =
    if str_eq s scope then (s, max u upper) ∷ cs else (s, u) ∷ raise_cursor scope upper cs

-- State.cursor
unfoldable pub cursor : String → ℕ → List (String × ℕ) → ℕ
cursor scope initial [] = initial
cursor scope initial ((s, u) ∷ cs) = if str_eq s scope then u else cursor scope initial cs

-- State.pending_count
unfoldable pub pending_count : List Row → ℕ
pending_count [] = 0
pending_count (r ∷ rows) = (if r.delivered == 0 then 1 else 0) + pending_count rows

-- INSERT OR IGNORE INTO records, with its rowcount
unfoldable pub insert_or_ignore : Row → Tables → ℕ × Tables
insert_or_ignore row t =
    if conflicts row t.records then (0, t) else (1, record t { records = t.records ++ row ∷ [] })

-- The INSERT of an excluded occurrence, which raises on a conflict.
unfoldable pub insert_excluded : Row → Tables → Result StateError (ℕ × Tables)
insert_excluded row t =
    if conflicts row t.records
    then err integrity_error
    else ok (0, record t { records = t.records ++ row ∷ [] })
