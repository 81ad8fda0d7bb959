-- ===== src/Adapter/State.antt =====
-- state.py: `State.enqueue`, as one transaction on the tables.
pub mod Outbox
pub mod Identities
pub mod Replay
use k8s_stack_tooling.Prelude.{
  ℕ, zero, suc, ◌+◌, String, Bool, true, false, Option, none, some, List, [], ◌∷◌, ◌++◌, ◌==◌, max,
  not, ◌&&◌, ◌||◌, any, is_some, if◌then◌else◌, str_eq, Result, ok, err, ◌>>=◌,
}
use k8s_stack_tooling.Adapter.Types.{Record, Scope, Decision, is_log_only, Payload, Row}
use k8s_stack_tooling.Adapter.Rows.{
  Mapping, StateError, Tables, find_identity, has_source, insert_excluded, insert_message,
  insert_or_ignore, insert_template, label_of, raise_cursor, value_error,
}

-- What `enqueue` takes from the rest of the program and from the libraries: the keyed digest,
-- the rules, the grouping keys, the links and the clock.
pub record Context : Type 0 where
  pub environment : String
  pub digest : List String → String
  pub evaluate : Scope → Record → Decision
  pub grouping_parts : String → List String
  pub log_links : Record → Option (Option String × Option String)
  pub now : ℕ

-- `s[:n]`
unfoldable pub first_characters : ℕ → String → String
first_characters zero s = ""
first_characters (suc n) String.[] = ""
first_characters (suc n) (String.◌∷◌ c s) = String.◌∷◌ c (first_characters n s)

module _ (ctx : Context) (scope : Scope) where
  unfoldable pub source_of : Record → String
  source_of r = ctx.digest ("source" ∷ scope.id ∷ r.index ∷ r.id ∷ [])

  unfoldable pub event_of : String → String
  event_of source = first_characters 32 (ctx.digest ("event" ∷ source ∷ []))

  abbrev context_of : Record → List String
  context_of r = scope.id ∷ r.namespace ∷ r.container ∷ r.failure_type ∷ []

  -- policy.py, identity_parts
  unfoldable pub identity_parts : Record → Option (List String) → List String
  identity_parts r none = "issue-v2" ∷ (context_of r ++ ctx.grouping_parts r.message)
  identity_parts r (some parts) =
      "issue-policy-v1"
      ∷ ctx.environment
      ∷ scope.application
      ∷ scope.service
      ∷ (context_of r ++ parts)

  unfoldable pub message_digest : Record → Option (List String) → String
  unfolding identity_parts
  message_digest r none = ctx.digest ("message-v2" ∷ (context_of r ++ r.message ∷ []))
  message_digest r (some parts) =
      ctx.digest ("message-policy-v1" ∷ (identity_parts r (some parts) ++ r.message ∷ []))

  unfoldable pub identity_of : Record → Option (List String) → List Mapping → String
  unfolding find_identity message_digest identity_parts
  identity_of r parts messages = elim (find_identity scope.id (message_digest r parts) messages) [
    | some identity ↦ identity
    | none ↦ ctx.digest (identity_parts r parts)
  ]

  -- `scope.release or record.image`, where an empty text counts as none
  abbrev pub nonempty : Option String → Option String
  nonempty none = none
  nonempty (some s) = if str_eq s "" then none else some s

  abbrev release_of : Option String → Option String → Option String
  release_of release image = elim (nonempty release) [ some s ↦ some s | none ↦ nonempty image ]

  unfoldable pub payload_of :
      Record → Decision → String → String → Option String × Option String → Payload
  payload_of r d event_id identity (matching, surrounding) = record {
    event_id = event_id;
    message = d.title;
    timestamp = r.timestamp;
    level = d.level;
    environment = ctx.environment;
    fingerprint = identity;
    application = scope.application;
    service = scope.service;
    namespace = r.namespace;
    container = r.container;
    failure_type = r.failure_type;
    rule_id = d.rule_id;
    count_unit = d.count_unit;
    explanation = d.explanation;
    matching_logs_url = matching;
    surrounding_logs_url = surrounding;
    original_level = d.original_level;
    original_log = r.message;
    diagnostics = d.diagnostics;
    release = release_of scope.release r.image;
  }

  -- The row of an occurrence that is excluded.
  unfoldable pub excluded_row : String → Row
  excluded_row source = record {
    source = source;
    event_id = event_of source;
    payload = none;
    delivered = 2;
    attempts = 0;
    next_attempt = 0;
    queued_at = 0;
  }

  unfoldable pub queued_row : String → Payload → Row
  queued_row source payload = record {
    source = source;
    event_id = event_of source;
    payload = some payload;
    delivered = 0;
    attempts = 0;
    next_attempt = 0;
    queued_at = ctx.now;
  }

  abbrev note_template : List (String × String) → Record → String → List Mapping → List Mapping
  note_template labels r identity ts = elim (label_of r.message labels) [
    | none ↦ ts
    | some label ↦
        insert_template
          (record {
            scope = scope.id;
            digest = ctx.digest ("template-v2" ∷ (context_of r ++ label ∷ []));
            identity = identity;
          })
          ts
  ]

  -- The part of the loop's body that stores a reported occurrence, given its links.
  unfoldable pub enqueue_reported :
      List (String × String)
      → Record
      → Decision
      → Tables
      → Option (Option String × Option String)
      → Result StateError (ℕ × Tables)
  enqueue_reported labels r d t none = err value_error
  enqueue_reported labels r d t (some links) =
      let source = source_of r in
      let identity = identity_of r d.identity_parts t.messages in
      ok (
        insert_or_ignore (queued_row source (payload_of r d (event_of source) identity links))
          (record t {
            messages =
                insert_message
                  (record {
                    scope = scope.id;
                    digest = message_digest r d.identity_parts;
                    identity = identity;
                  })
                  t.messages;
            templates = note_template labels r identity t.templates;
          }))

  -- The body of the loop over the records.
  unfoldable pub enqueue_one :
      List (String × String) → Record → Tables → Result StateError (ℕ × Tables)
  enqueue_one labels r t =
      if has_source (source_of r) t.records
      then ok (0, t)
      else let d = ctx.evaluate scope r in
        if is_log_only d.action
        then insert_excluded (excluded_row (source_of r)) t
        else enqueue_reported labels r d t (ctx.log_links r)

  unfoldable pub enqueue_all :
      List (String × String) → List Record → Tables → Result StateError (ℕ × Tables)
  enqueue_all labels [] t = ok (0, t)
  enqueue_all labels (r ∷ rs) t =
      enqueue_one labels r t >>= λ (n, t'). enqueue_all labels rs t' >>= λ (m, t''). ok (n + m, t'')

  -- State.enqueue: one transaction. On an error the tables stay as they were.
  unfoldable pub enqueue :
      List (String × String) → List Record → ℕ → Tables → Result StateError (ℕ × Tables)
  enqueue labels rs upper t = enqueue_all labels rs t >>= λ (n, t').
      ok (n, record t' { cursors = raise_cursor scope.id upper t'.cursors })
