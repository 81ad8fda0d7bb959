-- ===== src/OpenBao/Credentials/Records.antt =====
-- credentials.py: the records of reconcile_internal_credentials, up to those of docling.
use k8s_stack_tooling.Prelude.{String, Bool, true, false, refl, Dict}
use k8s_stack_tooling.Value.{Value}
use k8s_stack_tooling.OpenBao.Kv.{Server, IsLawful}
use k8s_stack_tooling.OpenBao.Kv.Kept.{AreKept}
use k8s_stack_tooling.OpenBao.Kv.Settled.{IsConvergent, return-IsConvergent, lift-IsConvergent}
use k8s_stack_tooling.OpenBao.Upsert.{InternalResult, no_change}
use k8s_stack_tooling.OpenBao.Upsert.Again.{
  ChangesNothing, upsert-after, required_text-after, result-after, upsert_all-IsConvergent,
}
use k8s_stack_tooling.OpenBao.Credentials.{Texts, is_broken}
use k8s_stack_tooling.OpenBao.Credentials.Checks.{checked_text-kept, validate_opensearch-kept}
use k8s_stack_tooling.OpenBao.Credentials.Reconcile.{
  reconcile_docling, upsert_postgres, remaining_records, reconcile_rest, reconcile_records,
}

module _ (texts : Texts) (server : Server) (lawful : IsLawful server) where
  pub reconcile_docling-IsConvergent :
      (enabled : Bool) (r : InternalResult)
      → IsConvergent server ChangesNothing
          (reconcile_docling texts server enabled r)
          (reconcile_docling texts server enabled no_change)
  unfolding reconcile_docling
  reconcile_docling-IsConvergent false r =
      return-IsConvergent server ChangesNothing r no_change refl
  reconcile_docling-IsConvergent true r =
      upsert-after server lawful ChangesNothing _ _ _ _ _ (λ v v' c kept.
        lift-IsConvergent server ChangesNothing _ _ _ _
          (λ text h. checked_text-kept (is_broken texts) v v' "apiKey" text kept h)
          (λ text. upsert_all-IsConvergent server lawful _ _))

  upsert_postgres-IsConvergent :
      (k k' a a' b b' s s' l l' : Dict Value) (r : InternalResult)
      → AreKept k k'
      → AreKept a a'
      → AreKept b b'
      → AreKept s s'
      → AreKept l l'
      → IsConvergent server ChangesNothing
          (upsert_postgres texts server k a b s l r)
          (upsert_postgres texts server k' a' b' s' l' no_change)
  unfolding upsert_postgres
  upsert_postgres-IsConvergent k k' a a' b b' s s' l l' r hk ha hb hs hl =
      required_text-after server lawful ChangesNothing k k' _ _ _ hk (λ keycloak_password.
        required_text-after server lawful ChangesNothing a a' _ _ _ ha (λ agentgateway_password.
          required_text-after server lawful ChangesNothing b b' _ _ _ hb (λ bridge_password.
            required_text-after server lawful ChangesNothing s s' _ _ _ hs (λ studio_password.
              required_text-after server lawful ChangesNothing l l' _ _ _ hl
                (λ langfuse_password. upsert_all-IsConvergent server lawful _ r)))))

  module _ (passwords : Dict String) where
    reconcile_rest-IsConvergent :
        (docling_enabled : Bool) (k k' b b' l l' o o' : Dict Value) (r : InternalResult)
        → AreKept k k'
        → AreKept b b'
        → AreKept l l'
        → AreKept o o'
        → IsConvergent server ChangesNothing
            (reconcile_rest texts server passwords docling_enabled k b l o r)
            (reconcile_rest texts server passwords docling_enabled k' b' l' o' no_change)
    unfolding reconcile_rest
    reconcile_rest-IsConvergent docling_enabled k k' b b' l l' o o' r hk hb hl ho =
        required_text-after server lawful ChangesNothing o o' _ _ _ ho (λ opensearch_password.
          required_text-after server lawful ChangesNothing l l' _ _ _ hl (λ public_key.
            required_text-after server lawful ChangesNothing l l' _ _ _ hl (λ secret_key.
              upsert-after server lawful ChangesNothing _ _ _ _ _ (λ s s' c hs.
                required_text-after server lawful ChangesNothing o o' _ _ _ ho (λ ingest_password.
                  result-after server lawful ChangesNothing _ _ _ _
                    (upsert_all-IsConvergent server lawful
                      (remaining_records texts server passwords ingest_password) _)
                    (λ r1. upsert-after server lawful ChangesNothing _ _ _ _ _ (λ a a' n ha.
                      result-after server lawful ChangesNothing _ _ _ _
                        (upsert_postgres-IsConvergent k k' a a' b b' s s' l l' _ hk ha hb hs hl)
                        (λ r2. reconcile_docling-IsConvergent docling_enabled r2))))))))

    pub reconcile_records-IsConvergent :
        (docling_enabled : Bool)
        → IsConvergent server ChangesNothing
            (reconcile_records texts server passwords docling_enabled)
            (reconcile_records texts server passwords docling_enabled)
    unfolding reconcile_records
    reconcile_records-IsConvergent docling_enabled =
        upsert-after server lawful ChangesNothing _ _ _ _ _ (λ k k' c1 hk.
          required_text-after server lawful ChangesNothing k k' _ _ _ hk (λ client_secret.
            upsert-after server lawful ChangesNothing _ _ _ _ _ (λ b b' c2 hb.
              upsert-after server lawful ChangesNothing _ _ _ _ _ (λ l l' c3 hl.
                upsert-after server lawful ChangesNothing _ _ _ _ _ (λ o o' c4 ho.
                  lift-IsConvergent server ChangesNothing _ _ _ _
                    (λ u h. validate_opensearch-kept texts o o' u ho h)
                    (λ u.
                      reconcile_rest-IsConvergent docling_enabled k k' b b' l l' o o' _ hk hb hl
                        ho))))))
