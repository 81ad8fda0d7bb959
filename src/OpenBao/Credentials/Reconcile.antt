-- ===== src/OpenBao/Credentials/Reconcile.antt =====
-- credentials.py: reconcile_internal_credentials.
use k8s_stack_tooling.Prelude.{
  String, Bool, true, false, Option, List, [], ◌∷◌, ◌++◌, ◌+◌, Dict, set_item,
}
use k8s_stack_tooling.Value.{Value}
use k8s_stack_tooling.OpenBao.Kv.{Server, Run, ◌>>=◌, return, lift, World}
use k8s_stack_tooling.OpenBao.Upsert.{
  Generators, required_text, InternalResult, no_change, count_change, add_path, upsert, upsert_all,
}
use k8s_stack_tooling.OpenBao.Credentials.{
  Texts, validate_bootstrap_passwords, bootstrap_password_fields, random_fields, hex_64,
  printable_32, langfuse_public_key, langfuse_secret_key, validate_opensearch_query_encryption_key,
  checked_text, is_broken,
}
use k8s_stack_tooling.OpenBao.Credentials.Services.{reconcile_contextforge, reconcile_glitchtip}

abbrev add_paths : List String → List String → List String
add_paths changed [] = changed
add_paths changed (path ∷ paths) = add_paths (add_path path changed) paths

-- The body of the last loop.
abbrev pub merge : InternalResult → InternalResult → InternalResult
merge r result = record {
  changed_paths = add_paths [] (r.changed_paths ++ result.changed_paths);
  added_fields = r.added_fields + result.added_fields;
}

module _ (texts : Texts) (server : Server) where
  abbrev pub Step : Type 0
  Step = InternalResult → Run (World server) InternalResult

  -- The last loop: the results of both are there before it begins.
  unfoldable pub reconcile_services : Option String → Bool → Step
  reconcile_services contextforge_admin_email glitchtip_enabled r = do
    contextforge ← reconcile_contextforge texts server contextforge_admin_email
    glitchtip ← reconcile_glitchtip texts server glitchtip_enabled
    return (merge (merge r contextforge) glitchtip)

  -- The records of docling, with _docling_api_key.
  unfoldable pub reconcile_docling : Bool → Step
  reconcile_docling false r = return r
  reconcile_docling true r = do
    docling ← upsert server "docling/internal" (random_fields texts ("apiKey" ∷ [])) []
    api_key ← lift (checked_text (is_broken texts) docling.0 "apiKey")
    upsert_all server
        (("monitor-agentgateway-extproc/internal", ([], ("doclingApiKey", api_key) ∷ [])) ∷ [])
        (count_change r "docling/internal" docling.1)

  -- The loop over `postgres_records`.
  unfoldable pub upsert_postgres :
      Dict Value → Dict Value → Dict Value → Dict Value → Dict Value → Step
  upsert_postgres keycloak agentgateway bridge studio langfuse r = do
    keycloak_password ← lift (required_text keycloak "dbPassword")
    agentgateway_password ← lift (required_text agentgateway "postgresqlPassword")
    bridge_password ← lift (required_text bridge "postgresqlPassword")
    studio_password ← lift (required_text studio "postgresqlPassword")
    langfuse_password ← lift (required_text langfuse "postgresqlPassword")
    upsert_all server
        ((
          "infra-postgres-auth/internal",
          (
            random_fields texts ("adminPassword" ∷ []),
            ("keycloakPassword", keycloak_password) ∷ [],
          ),
        )
          ∷ (
            "infra-postgres-operations/internal",
            (
              random_fields texts ("adminPassword" ∷ []),
              ("agentgatewayPassword", agentgateway_password)
                  ∷ ("apiKeyBridgePassword", bridge_password)
                  ∷ ("studioPassword", studio_password)
                  ∷ ("langfusePassword", langfuse_password)
                  ∷ [],
            ),
          )
          ∷ [])
        r

  abbrev langfuse_generators : Generators
  langfuse_generators =
      random_fields texts (
        "salt" ∷ "nextauthSecret" ∷ "postgresqlPassword" ∷ "clickhousePassword" ∷ "redisPassword"
        ∷ [])
      ++ (("encryptionKey", hex_64 texts)
          ∷ ("initProjectPublicKey", langfuse_public_key texts)
          ∷ ("initProjectSecretKey", langfuse_secret_key texts)
          ∷ [])

  abbrev opensearch_generators : Generators
  opensearch_generators =
      random_fields texts (
        "adminPassword" ∷ "dashboardCookieSecret" ∷ "dashboardPassword" ∷ "fluentBitPassword"
        ∷ "provisionerPassword" ∷ "reportReaderPassword" ∷ "studioPassword" ∷ [])
      ++ (("queryDatasourceEncryptionKey", printable_32 texts) ∷ [])

  module _ (passwords : Dict String) where
    -- The loop over `remaining_records`.
    abbrev pub remaining_records : String → List (String × (Generators × Dict String))
    remaining_records ingest_password =
        ("monitor-fluent-bit/internal", ([], ("ingestPassword", ingest_password) ∷ []))
        ∷ (
          "monitor-kube-prometheus-stack/internal",
          (
            [],
            set_item "adminUser" "admin"
                (bootstrap_password_fields "monitor-kube-prometheus-stack/internal" passwords),
          ),
        )
        ∷ (
          "monitor-pii-engine/internal",
          (("hashKey", hex_64 texts) ∷ ("encryptionKey", printable_32 texts) ∷ [], []),
        )
        ∷ []

    -- From the record of the studio up to the results of docling.
    unfoldable pub reconcile_rest : Bool → Dict Value → Dict Value → Dict Value → Dict Value → Step
    reconcile_rest docling_enabled keycloak bridge langfuse opensearch r = do
      opensearch_password ← lift (required_text opensearch "studioPassword")
      public_key ← lift (required_text langfuse "initProjectPublicKey")
      secret_key ← lift (required_text langfuse "initProjectSecretKey")
      studio ←
          upsert server "frontend-studio/internal" (random_fields texts ("postgresqlPassword" ∷ []))
            (("opensearchPassword", opensearch_password)
              ∷ ("llmLogsPublicKey", public_key)
              ∷ ("llmLogsSecretKey", secret_key)
              ∷ [])
      ingest_password ← lift (required_text opensearch "fluentBitPassword")
      r1 ←
          upsert_all server (remaining_records ingest_password)
            (count_change r "frontend-studio/internal" studio.1)
      agentgateway ←
          upsert server "infra-agentgateway/internal"
            (random_fields texts ("postgresqlPassword" ∷ [])) []
      r2 ←
          upsert_postgres keycloak agentgateway.0 bridge studio.0 langfuse
            (count_change r1 "infra-agentgateway/internal" agentgateway.1)
      reconcile_docling docling_enabled r2

    -- From the first record up to the results of docling.
    unfoldable pub reconcile_records : Bool → Run (World server) InternalResult
    reconcile_records docling_enabled = do
      keycloak ←
          upsert server "auth-keycloak/internal"
            (random_fields texts ("dbPassword" ∷ "bridgeOidcClientSecret" ∷ []))
            (bootstrap_password_fields "auth-keycloak/internal" passwords)
      client_secret ← lift (required_text keycloak.0 "bridgeOidcClientSecret")
      bridge ←
          upsert server "auth-keycloak-api-key-bridge/internal"
            (random_fields texts ("postgresqlPassword" ∷ []))
            (("keycloakClientSecret", client_secret) ∷ [])
      langfuse ←
          upsert server "monitor-langfuse/internal" langfuse_generators
            (bootstrap_password_fields "monitor-langfuse/internal" passwords)
      opensearch ← upsert server "monitor-opensearch/internal" opensearch_generators []
      _ ← lift (validate_opensearch_query_encryption_key texts opensearch.0)
      let r1 = count_change no_change "auth-keycloak/internal" keycloak.1
      let r2 = count_change r1 "auth-keycloak-api-key-bridge/internal" bridge.1
      let r3 = count_change r2 "monitor-langfuse/internal" langfuse.1
      let r4 = count_change r3 "monitor-opensearch/internal" opensearch.1
      reconcile_rest docling_enabled keycloak.0 bridge.0 langfuse.0 opensearch.0 r4

    -- reconcile_internal_credentials
    unfoldable pub reconcile_internal_credentials :
        Bool → Option String → Bool → Run (World server) InternalResult
    reconcile_internal_credentials docling_enabled contextforge_admin_email glitchtip_enabled = do
      _ ← lift (validate_bootstrap_passwords passwords)
      r ← reconcile_records docling_enabled
      reconcile_services contextforge_admin_email glitchtip_enabled r
