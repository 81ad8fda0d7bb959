-- ===== src/OpenBao/Credentials/Copies.antt =====
-- credentials.py: what reconcile_internal_credentials has stored when it has gone through.
use k8s_stack_tooling.Prelude.{String, Bool, true, false, Option, [], ◌∷◌, ◌≡◌, ok, Dict, set_item}
use k8s_stack_tooling.Value.{Value, str}
use k8s_stack_tooling.OpenBao.Kv.{Server, IsLawful, World}
use k8s_stack_tooling.OpenBao.Kv.Ensured.{
  IsStable, IsEnsured, weaken, safe-IsEnsured, bind-IsEnsured, lift-IsEnsured,
}
use k8s_stack_tooling.OpenBao.Upsert.{required_text, InternalResult, no_change, count_change}
use k8s_stack_tooling.OpenBao.Kv.Kept.{held_values, Keeps-refl}
use k8s_stack_tooling.OpenBao.Upsert.Steps.{HasFixed}
use k8s_stack_tooling.OpenBao.Upsert.Ensured.{
  IsStored, HaveFixed, HaveFixed-stable, IsCopy, IsShared, IsCopy-IsShared, upsert-ensures,
  upsert_all-HaveFixed,
}
use k8s_stack_tooling.OpenBao.Credentials.{
  Texts, is_broken, validate_bootstrap_passwords, bootstrap_password_fields,
  validate_opensearch_query_encryption_key,
}
use k8s_stack_tooling.OpenBao.Credentials.Reconcile.{
  reconcile_docling, upsert_postgres, remaining_records, reconcile_rest, reconcile_records,
  reconcile_services, reconcile_internal_credentials,
}
use k8s_stack_tooling.OpenBao.Credentials.Good.{checked_text-eq_ok}
use k8s_stack_tooling.OpenBao.Credentials.Converged.{reconcile_services-IsSafe}

module _ (texts : Texts) (server : Server) (lawful : IsLawful server) where
  -- The copies in the records of PostgreSQL.
  abbrev PostgresCopies :
      Dict Value → Dict Value → Dict Value → Dict Value → Dict Value → World server → Type 0
  PostgresCopies k a b s l w =
      IsCopy server k "dbPassword" "infra-postgres-auth/internal" "keycloakPassword" w
      × IsCopy server a "postgresqlPassword" "infra-postgres-operations/internal"
          "agentgatewayPassword" w
      × IsCopy server b "postgresqlPassword" "infra-postgres-operations/internal"
          "apiKeyBridgePassword" w
      × IsCopy server s "postgresqlPassword" "infra-postgres-operations/internal" "studioPassword" w
      × IsCopy server l "postgresqlPassword" "infra-postgres-operations/internal" "langfusePassword"
          w

  IsCopy-stable :
      (v : Dict Value) (name path other : String)
      → IsStable server (IsCopy server v name path other)
  IsCopy-stable v name path other w w' kept (text, is_text, there) =
      (text, is_text, kept path other (str text) there)

  PostgresCopies-stable : (k a b s l : Dict Value) → IsStable server (PostgresCopies k a b s l)
  PostgresCopies-stable k a b s l w w' kept (hk, ha, hb, hs, hl) = (
    IsCopy-stable k _ _ _ w w' kept hk,
    IsCopy-stable a _ _ _ w w' kept ha,
    IsCopy-stable b _ _ _ w w' kept hb,
    IsCopy-stable s _ _ _ w w' kept hs,
    IsCopy-stable l _ _ _ w w' kept hl,
  )

  upsert_postgres-ensures :
      (k a b s l : Dict Value) (r : InternalResult)
      → IsEnsured server (PostgresCopies k a b s l) (upsert_postgres texts server k a b s l r)
  unfolding upsert_postgres
  upsert_postgres-ensures k a b s l r = lift-IsEnsured server _ _ _ (λ tk ek.
      lift-IsEnsured server _ _ _ (λ ta ea. lift-IsEnsured server _ _ _ (λ tb eb.
        lift-IsEnsured server _ _ _ (λ ts es. lift-IsEnsured server _ _ _ (λ tl el.
          weaken server _ (PostgresCopies k a b s l) _ (upsert_all-HaveFixed server lawful _ r)
            (λ w has. (
              (tk, ek, has.0.0),
              (ta, ea, has.1.0.0),
              (tb, eb, has.1.0.1.0),
              (ts, es, has.1.0.1.1.0),
              (tl, el, has.1.0.1.1.1.0),
            )))))))

  -- The key of docling and its copy, if docling is enabled.
  abbrev pub DoclingShared : Bool → World server → Type 0
  DoclingShared false w = Unit
  DoclingShared true w =
      IsShared server "docling/internal" "apiKey" "monitor-agentgateway-extproc/internal"
        "doclingApiKey" w

  reconcile_docling-ensures :
      (enabled : Bool) (r : InternalResult)
      → IsEnsured server (DoclingShared enabled) (reconcile_docling texts server enabled r)
  unfolding reconcile_docling
  reconcile_docling-ensures false r = record {
    safe = λ w. Keeps-refl server w;
    ends = λ w a w1 h. tt;
  }
  reconcile_docling-ensures true r = upsert-ensures server lawful _ "docling/internal" _ _ _ (λ v c.
      lift-IsEnsured server _ _ _ (λ text e.
        let (there, good) = checked_text-eq_ok (is_broken texts) v "apiKey" text e in
        weaken server _ _ _ (upsert_all-HaveFixed server lawful _ _)
          (λ w has stored. (text, good.0, stored.0 "apiKey" (str text) there, has.0.0))))

  module _ (passwords : Dict String) where
    -- What the records from the studio on hold of others and of the passwords handed over.
    abbrev pub RestShared :
        Bool → Dict Value → Dict Value → Dict Value → Dict Value → World server → Type 0
    RestShared docling k b l o w =
        IsCopy server o "studioPassword" "frontend-studio/internal" "opensearchPassword" w
        × IsCopy server l "initProjectPublicKey" "frontend-studio/internal" "llmLogsPublicKey" w
        × IsCopy server l "initProjectSecretKey" "frontend-studio/internal" "llmLogsSecretKey" w
        × IsCopy server o "fluentBitPassword" "monitor-fluent-bit/internal" "ingestPassword" w
        × IsCopy server k "dbPassword" "infra-postgres-auth/internal" "keycloakPassword" w
        × IsShared server "infra-agentgateway/internal" "postgresqlPassword"
            "infra-postgres-operations/internal" "agentgatewayPassword" w
        × IsCopy server b "postgresqlPassword" "infra-postgres-operations/internal"
            "apiKeyBridgePassword" w
        × IsShared server "frontend-studio/internal" "postgresqlPassword"
            "infra-postgres-operations/internal" "studioPassword" w
        × IsCopy server l "postgresqlPassword" "infra-postgres-operations/internal"
            "langfusePassword" w
        × HasFixed
            (set_item "adminUser" "admin"
              (bootstrap_password_fields "monitor-kube-prometheus-stack/internal" passwords))
            (held_values server w "monitor-kube-prometheus-stack/internal")
        × DoclingShared docling w

    reconcile_rest-ensures :
        (docling : Bool) (k b l o : Dict Value) (r : InternalResult)
        → IsEnsured server
            (RestShared docling k b l o)
            (reconcile_rest texts server passwords docling k b l o r)
    unfolding reconcile_rest
    reconcile_rest-ensures docling k b l o r = lift-IsEnsured server _ _ _ (λ t1 e1.
        lift-IsEnsured server _ _ _ (λ t2 e2. lift-IsEnsured server _ _ _ (λ t3 e3.
          upsert-ensures server lawful _ "frontend-studio/internal" _ _ _ (λ s c.
            lift-IsEnsured server _ _ _ (λ t4 e4.
              let remaining =
                upsert_all-HaveFixed server lawful (remaining_records texts server passwords t4)
                  _ in
              bind-IsEnsured server
                (λ (x : InternalResult).
                  HaveFixed server (remaining_records texts server passwords t4))
                _ _ _ remaining.safe remaining.ends
                (λ x. HaveFixed-stable server (remaining_records texts server passwords t4))
                (λ r1. upsert-ensures server lawful _ "infra-agentgateway/internal" _ _ _ (λ a n.
                  let postgres = upsert_postgres-ensures k a b s l _ in
                  bind-IsEnsured server (λ (x : InternalResult). PostgresCopies k a b s l) _ _ _
                    postgres.safe postgres.ends (λ x. PostgresCopies-stable k a b s l)
                    (λ r2.
                      weaken server (DoclingShared docling) _ _
                        (reconcile_docling-ensures docling r2)
                        (λ w shared (ck, ca, cb, cs, cl) (ka, _) has (ks, fixed). (
                          (t1, e1, fixed.0),
                          (t2, e2, fixed.1.0),
                          (t3, e3, fixed.1.1.0),
                          (t4, e4, has.0.0),
                          ck,
                          IsCopy-IsShared server a _ _ _ _ w ca ka,
                          cb,
                          IsCopy-IsShared server s _ _ _ _ w cs ks,
                          cl,
                          has.1.0,
                          shared,
                        ))))))))))

    -- What follows from the records that are stored and from what the later ones hold of them.
    pub reconcile_records-ensures :
        (P : World server → Type 0) (docling : Bool)
        → ((k b l o : Dict Value) (text : String) (w : World server)
            → required_text k "bridgeOidcClientSecret" ≡ ok text
            → RestShared docling k b l o w
            → IsStored server "monitor-opensearch/internal" o [] w
            → IsStored server "monitor-langfuse/internal" l
                (bootstrap_password_fields "monitor-langfuse/internal" passwords)
                w
            → IsStored server "auth-keycloak-api-key-bridge/internal" b
                (("keycloakClientSecret", text) ∷ [])
                w
            → IsStored server "auth-keycloak/internal" k
                (bootstrap_password_fields "auth-keycloak/internal" passwords)
                w
            → P w)
        → IsEnsured server P (reconcile_records texts server passwords docling)
    unfolding reconcile_records
    reconcile_records-ensures P docling facts =
        upsert-ensures server lawful _ "auth-keycloak/internal" _ _ _ (λ k c1.
          lift-IsEnsured server _ _ _ (λ t e.
            upsert-ensures server lawful _ "auth-keycloak-api-key-bridge/internal" _ _ _ (λ b c2.
              upsert-ensures server lawful _ "monitor-langfuse/internal" _ _ _ (λ l c3.
                upsert-ensures server lawful _ "monitor-opensearch/internal" _ _ _ (λ o c4.
                  let r =
                    count_change
                      (count_change
                        (count_change (count_change no_change "auth-keycloak/internal" c1)
                          "auth-keycloak-api-key-bridge/internal" c2)
                        "monitor-langfuse/internal" c3)
                      "monitor-opensearch/internal" c4 in
                  lift-IsEnsured server _ (validate_opensearch_query_encryption_key texts o)
                    (λ _. reconcile_rest texts server passwords docling k b l o r)
                    (λ u valid.
                      weaken server (RestShared docling k b l o) _ _
                        (reconcile_rest-ensures docling k b l o r)
                        (λ w rest ho hl hb hk. facts k b l o t w e rest ho hl hb hk)))))))

    pub reconcile_internal_credentials-ensures :
        (P : World server → Type 0)
        → IsStable server P
        → (docling : Bool) (email : Option String) (glitchtip : Bool)
        → IsEnsured server P (reconcile_records texts server passwords docling)
        → IsEnsured server P
            (reconcile_internal_credentials texts server passwords docling email glitchtip)
    unfolding reconcile_internal_credentials
    reconcile_internal_credentials-ensures P stable docling email glitchtip records =
        lift-IsEnsured server P (validate_bootstrap_passwords passwords) _ (λ u valid.
          bind-IsEnsured server (λ (x : InternalResult). P) P
            (reconcile_records texts server passwords docling)
            (reconcile_services texts server email glitchtip) records.safe records.ends
            (λ x. stable)
            (λ x.
              safe-IsEnsured server _ _
                (reconcile_services-IsSafe texts server lawful email glitchtip x) (λ v p. p)))
