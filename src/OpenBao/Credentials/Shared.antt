-- ===== src/OpenBao/Credentials/Shared.antt =====
-- credentials.py: that the records of reconcile_internal_credentials agree on what they share.
use k8s_stack_tooling.Prelude.{String, Bool, true, false, Option, List, [], ◌∷◌, ◌≡◌, ok, Dict, All}
use k8s_stack_tooling.Value.{Value}
use k8s_stack_tooling.OpenBao.Kv.{Server, IsLawful, World}
use k8s_stack_tooling.OpenBao.Kv.Ensured.{IsStable, IsEnsured}
use k8s_stack_tooling.OpenBao.Upsert.{required_text, InternalResult}
use k8s_stack_tooling.OpenBao.Kv.Kept.{AreKept, held_values}
use k8s_stack_tooling.OpenBao.Upsert.Ensured.{IsStored, IsShared, IsShared-stable, IsCopy-IsShared}
use k8s_stack_tooling.OpenBao.Credentials.{Texts}
use k8s_stack_tooling.OpenBao.Credentials.Reconcile.{reconcile_internal_credentials}
use k8s_stack_tooling.OpenBao.Credentials.Copies.{
  RestShared, DoclingShared, reconcile_records-ensures, reconcile_internal_credentials-ensures,
}
use k8s_stack_tooling.OpenBao.Credentials.Served.{AreServed, reconcile_internal_credentials-serves}

-- A field of one record, and the field of another one that is its copy.
pub record SharedField : Type 0 where
  pub path : String
  pub name : String
  pub copy_path : String
  pub copy_name : String

abbrev copied : String → String → String → String → SharedField
copied path name copy_path copy_name = record {
  path = path;
  name = name;
  copy_path = copy_path;
  copy_name = copy_name;
}

-- What the records share whatever is enabled; ContextForge, GlitchTip and docling come to it below.
abbrev pub shared_fields : List SharedField
shared_fields =
    copied "auth-keycloak/internal" "bridgeOidcClientSecret" "auth-keycloak-api-key-bridge/internal"
      "keycloakClientSecret"
    ∷ copied "monitor-opensearch/internal" "studioPassword" "frontend-studio/internal"
        "opensearchPassword"
    ∷ copied "monitor-langfuse/internal" "initProjectPublicKey" "frontend-studio/internal"
        "llmLogsPublicKey"
    ∷ copied "monitor-langfuse/internal" "initProjectSecretKey" "frontend-studio/internal"
        "llmLogsSecretKey"
    ∷ copied "monitor-opensearch/internal" "fluentBitPassword" "monitor-fluent-bit/internal"
        "ingestPassword"
    ∷ copied "auth-keycloak/internal" "dbPassword" "infra-postgres-auth/internal" "keycloakPassword"
    ∷ copied "infra-agentgateway/internal" "postgresqlPassword" "infra-postgres-operations/internal"
        "agentgatewayPassword"
    ∷ copied "auth-keycloak-api-key-bridge/internal" "postgresqlPassword"
        "infra-postgres-operations/internal" "apiKeyBridgePassword"
    ∷ copied "frontend-studio/internal" "postgresqlPassword" "infra-postgres-operations/internal"
        "studioPassword"
    ∷ copied "monitor-langfuse/internal" "postgresqlPassword" "infra-postgres-operations/internal"
        "langfusePassword"
    ∷ []

module _ (texts : Texts) (server : Server) (lawful : IsLawful server) where
  abbrev pub AreShared : List SharedField → World server → Type 0
  AreShared fields w =
      All (λ (f : SharedField). IsShared server f.path f.name f.copy_path f.copy_name w) fields

  AreShared-stable : (fields : List SharedField) → IsStable server (AreShared fields)
  AreShared-stable [] w w' kept h = tt
  AreShared-stable (f ∷ fields) w w' kept (one, h) = (
    IsShared-stable server f.path f.name f.copy_path f.copy_name w w' kept one,
    AreShared-stable fields w w' kept h,
  )

  module _ (passwords : Dict String) where
    -- What is shared once all records are there.
    records-AreShared :
        (docling : Bool) (k b l o : Dict Value) (text : String) (w : World server)
        → required_text k "bridgeOidcClientSecret" ≡ ok text
        → RestShared texts server lawful passwords docling k b l o w
        → AreKept o (held_values server w "monitor-opensearch/internal")
        → AreKept l (held_values server w "monitor-langfuse/internal")
        → IsStored server "auth-keycloak-api-key-bridge/internal" b
            (("keycloakClientSecret", text) ∷ [])
            w
        → AreKept k (held_values server w "auth-keycloak/internal")
        → AreShared shared_fields w × DoclingShared texts server lawful docling w
    records-AreShared docling k b l o text w is_text
          (
            studio, public, secret, ingest, database, agentgateway, bridge, own, langfuse, grafana,
            docling',
          )
          ho hl (hb, fixed) hk =
        let client = IsCopy-IsShared server k _ _ _ _ w (text, is_text, fixed.0) hk in
        let studio' = IsCopy-IsShared server o _ _ _ _ w studio ho in
        let public' = IsCopy-IsShared server l _ _ _ _ w public hl in
        let secret' = IsCopy-IsShared server l _ _ _ _ w secret hl in
        let ingest' = IsCopy-IsShared server o _ _ _ _ w ingest ho in
        let database' = IsCopy-IsShared server k _ _ _ _ w database hk in
        let bridge' = IsCopy-IsShared server b _ _ _ _ w bridge hb in
        let langfuse' = IsCopy-IsShared server l _ _ _ _ w langfuse hl in
        (
          (
            client,
            (
              studio',
              (
                public',
                (
                  secret',
                  (ingest', (database', (agentgateway, (bridge', (own, (langfuse', tt)))))),
                ),
              ),
            ),
          ),
          docling',
        )

    -- What is shared at the end, by what is enabled.
    pub record AllShared (docling : Bool) (email : Option String) (glitchtip : Bool)
        (w : World server) : Type 0 where
      pub shared : AreShared shared_fields w
      pub with_docling : DoclingShared texts server lawful docling w
      pub served : AreServed texts server lawful email glitchtip w

    DoclingShared-stable :
        (enabled : Bool) → IsStable server (DoclingShared texts server lawful enabled)
    DoclingShared-stable false w w' kept h = tt
    DoclingShared-stable true w w' kept h = IsShared-stable server _ _ _ _ w w' kept h

    records-ensure :
        (docling : Bool) (email : Option String) (glitchtip : Bool)
        → IsEnsured server
            (λ w. AreShared shared_fields w × DoclingShared texts server lawful docling w)
            (reconcile_internal_credentials texts server passwords docling email glitchtip)
    records-ensure docling email glitchtip =
        reconcile_internal_credentials-ensures texts server lawful passwords _
          (λ w w' kept (fields, key). (
            AreShared-stable shared_fields w w' kept fields,
            DoclingShared-stable docling w w' kept key,
          ))
          docling email glitchtip
          (reconcile_records-ensures texts server lawful passwords _ docling
            (λ k b l o t v e rest ho hl hb hk.
              records-AreShared docling k b l o t v e rest ho.0 hl.0 hb hk.0))

    -- When reconcile_internal_credentials has gone through, both records of each shared field hold the
    -- same text, which is not empty: the ten fields that are shared whatever is enabled, the key of
    -- docling if it is enabled, and the password of the database of ContextForge if there is an
    -- address. If GlitchTip is enabled, both records of the password of its database hold the same
    -- text.
    pub reconcile_internal_credentials-AreShared :
        (docling : Bool) (email : Option String) (glitchtip : Bool) (w w1 : World server)
        (r : InternalResult)
        → reconcile_internal_credentials texts server passwords docling email glitchtip w
          ≡ (ok r, w1)
        → AllShared docling email glitchtip w1
    reconcile_internal_credentials-AreShared docling email glitchtip w w1 r h =
        let (shared, key) = (records-ensure docling email glitchtip).ends w r w1 h in
        record {
          shared = shared;
          with_docling = key;
          served =
              (reconcile_internal_credentials-serves texts server lawful passwords docling email
                  glitchtip).ends
                w r w1 h;
        }
