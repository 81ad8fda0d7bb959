-- ===== src/OpenBao/Credentials/Services.antt =====
-- credentials.py: `_reconcile_contextforge` and `_reconcile_glitchtip`.
use k8s_stack_tooling.Prelude.{
  ℕ, suc, String, Bool, true, false, Option, none, some, List, [], ◌∷◌, ◌++◌, map, if◌then◌else◌,
  str_eq, Result, ok, err, Dict, get_item, is_some, keys_of,
}
use k8s_stack_tooling.Value.{Value}
use k8s_stack_tooling.OpenBao.Kv.{
  OpenBaoError, conflict, Server, Run, ◌>>=◌, return, lift, World, read_secret,
}
use k8s_stack_tooling.OpenBao.Kv.Kept.{values_of}
use k8s_stack_tooling.OpenBao.Upsert.{
  Generators, required_text, InternalResult, no_change, count_change, upsert, upsert_all,
}
use k8s_stack_tooling.OpenBao.Credentials.{
  Texts, check_fields, check_present, checked_copy, is_unprintable, is_broken, random_secret,
  random_fields, contextforge_fields,
}

-- The copies agree.
abbrev pub agree : List String → Result OpenBaoError (List String)
agree [] = ok []
agree (copy ∷ []) = ok (copy ∷ [])
agree (copy ∷ other ∷ rest) = if str_eq copy other then ok (copy ∷ other ∷ rest) else err conflict

abbrev pub empty_fields : List String → Generators
empty_fields names = map (λ (name : String). (name, λ (n : ℕ). "")) names

module _ (texts : Texts) where
  abbrev pub glitchtip_records : String → List (String × (Generators × Dict String))
  glitchtip_records password =
      (
        "glitchtip/internal",
        (random_fields texts ("secretKey" ∷ []), ("databasePassword", password) ∷ []),
      )
      ∷ ("infra-postgres-operations/internal", ([], ("glitchtipPassword", password) ∷ []))
      ∷ (
        "glitchtip/adapter",
        (
          random_fields texts ("opensearchPassword" ∷ []),
          ("opensearchUsername", "glitchtip-adapter") ∷ [],
        ),
      )
      ∷ []

  module _ (server : Server) where
    -- _reconcile_contextforge after its test of the address
    unfoldable pub upsert_contextforge : String → Run (World server) (Dict Value × ℕ)
    upsert_contextforge admin_email = do
      current ← read_secret server "contextforge/internal"
      _ ← lift (check_present (is_broken texts) (values_of current) contextforge_fields)
      upsert server "contextforge/internal" (random_fields texts contextforge_fields)
          (("platformAdminEmail", admin_email) ∷ [])

    -- _reconcile_contextforge
    unfoldable pub reconcile_contextforge : Option String → Run (World server) InternalResult
    reconcile_contextforge none = return no_change
    reconcile_contextforge (some admin_email) = do
      x ← upsert_contextforge admin_email
      password ← lift (required_text x.0 "postgresqlPassword")
      upsert_all server
          (("infra-postgres-operations/internal", ([], ("contextforgePassword", password) ∷ []))
            ∷ [])
          (count_change no_change "contextforge/internal" x.1)

    -- The body of the loop of _glitchtip_database_password
    unfoldable pub copy_of : String → String → Run (World server) (List String)
    copy_of path name = do
      current ← read_secret server path
      if is_some (get_item name (values_of current))
          then lift (checked_copy (is_unprintable texts) (values_of current) name)
          else return []

    abbrev pub first_or_random : List String → Run (World server) String
    first_or_random [] w =
        (ok (random_secret texts w.drawn), record { state = w.state; drawn = suc w.drawn })
    first_or_random (copy ∷ rest) w = (ok copy, w)

    -- _glitchtip_database_password
    unfoldable pub glitchtip_database_password : Run (World server) String
    glitchtip_database_password = do
      own ← copy_of "glitchtip/internal" "databasePassword"
      shared ← copy_of "infra-postgres-operations/internal" "glitchtipPassword"
      copies ← lift (agree (own ++ shared))
      first_or_random copies

    -- The first loop of _reconcile_glitchtip
    unfoldable pub upsert_checked :
        List (String × (Generators × Dict String))
        → InternalResult
        → Run (World server) InternalResult
    upsert_checked [] r = return r
    upsert_checked ((path, (generators, fixed)) ∷ rest) r = do
      x ← upsert server path generators fixed
      _ ← lift (check_fields (is_unprintable texts) x.0 (keys_of generators))
      upsert_checked rest (count_change r path x.1)

    -- _reconcile_glitchtip
    unfoldable pub reconcile_glitchtip : Bool → Run (World server) InternalResult
    reconcile_glitchtip false = return no_change
    reconcile_glitchtip true = do
      password ← glitchtip_database_password
      r ← upsert_checked (glitchtip_records password) no_change
      upsert_all server
          (("glitchtip/adapter", (empty_fields ("dsn" ∷ []), []))
            ∷ ("glitchtip/external", (empty_fields ("smtpUsername" ∷ "smtpPassword" ∷ []), []))
            ∷ ("glitchtip/owner", (empty_fields ("email" ∷ "password" ∷ []), []))
            ∷ [])
          r
