-- ===== src/OpenBao/Credentials/Converged.antt =====
-- credentials.py: that reconcile_internal_credentials loses nothing, and has nothing left to do after a
-- run that went through.
use k8s_stack_tooling.Prelude.{
  String, Bool, true, false, Option, none, some, [], ◌∷◌, ◌≡◌, refl, ◌∙◌, ap, subst, Result, ok,
  Dict, get_item,
}
use k8s_stack_tooling.Value.{str}
use k8s_stack_tooling.OpenBao.Kv.{
  OpenBaoError, Server, IsLawful, Run, ◌>>=◌ as bind, continue, lift, World,
}
use k8s_stack_tooling.OpenBao.Kv.Kept.{held_values, Keeps, Keeps-refl, IsSafe, bind-IsSafe}
use k8s_stack_tooling.OpenBao.Kv.Settled.{
  continue-eq_ok, IsReadable, IsSettledBy, IsConvergent, return-IsConvergent, lift-IsConvergent,
}
use k8s_stack_tooling.OpenBao.Upsert.{InternalResult, no_change, upsert_all}
use k8s_stack_tooling.OpenBao.Upsert.Again.{ChangesNothing, result-after, upsert_all-IsConvergent}
use k8s_stack_tooling.OpenBao.Credentials.{Texts, validate_bootstrap_passwords}
use k8s_stack_tooling.OpenBao.Credentials.Services.{
  glitchtip_database_password, upsert_checked, glitchtip_records, empty_fields,
  reconcile_contextforge, reconcile_glitchtip,
}
use k8s_stack_tooling.OpenBao.Credentials.Reconcile.{
  merge, reconcile_services, reconcile_records, reconcile_internal_credentials,
}
use k8s_stack_tooling.OpenBao.Credentials.Checks.{upsert_checked-IsConvergent}
use k8s_stack_tooling.OpenBao.Credentials.Records.{reconcile_records-IsConvergent}
use k8s_stack_tooling.OpenBao.Credentials.Good.{IsRandom}
use k8s_stack_tooling.OpenBao.Credentials.Contextforge.{
  reconcile_contextforge-IsSafe, reconcile_contextforge-IsConvergent,
}
use k8s_stack_tooling.OpenBao.Credentials.Glitchtip.{
  AreFixed, upsert_checked-AreFixed, glitchtip_database_password-IsSafe,
  glitchtip_database_password-IsGood, glitchtip_database_password-present,
}

module _ (texts : Texts) (server : Server) (lawful : IsLawful server) where
  abbrev pub upsert_glitchtip : String → Run (World server) InternalResult
  upsert_glitchtip password =
      bind (upsert_checked texts server (glitchtip_records texts password) no_change) (λ r.
        upsert_all server
          (("glitchtip/adapter", (empty_fields ("dsn" ∷ []), []))
            ∷ ("glitchtip/external", (empty_fields ("smtpUsername" ∷ "smtpPassword" ∷ []), []))
            ∷ ("glitchtip/owner", (empty_fields ("email" ∷ "password" ∷ []), []))
            ∷ [])
          r)

  pub upsert_glitchtip-IsConvergent :
      (password : String)
      → IsConvergent server ChangesNothing (upsert_glitchtip password) (upsert_glitchtip password)
  upsert_glitchtip-IsConvergent password =
      result-after server lawful ChangesNothing _ _ _ _
        (upsert_checked-IsConvergent texts server lawful (glitchtip_records texts password)
          no_change)
        (λ r. upsert_all-IsConvergent server lawful _ r)

  reconcile_glitchtip-IsSafe :
      (enabled : Bool) → IsSafe server (reconcile_glitchtip texts server enabled)
  unfolding reconcile_glitchtip
  reconcile_glitchtip-IsSafe false w = Keeps-refl server w
  reconcile_glitchtip-IsSafe true w =
      bind-IsSafe server (glitchtip_database_password texts server) upsert_glitchtip
        (glitchtip_database_password-IsSafe texts server lawful)
        (λ password. (upsert_glitchtip-IsConvergent password).safe) w

  pub upsert_glitchtip-stored :
      (password : String) (w w1 : World server) (r : InternalResult)
      → upsert_glitchtip password w ≡ (ok r, w1)
      → (get_item "databasePassword" (held_values server w1 "glitchtip/internal")
          ≡ some (str password))
        × (get_item "glitchtipPassword" (held_values server w1 "infra-postgres-operations/internal")
            ≡ some (str password))
  unfolding AreFixed
  upsert_glitchtip-stored password w w1 r h =
      let (r0, (wa, one, two)) =
        continue-eq_ok (upsert_checked texts server (glitchtip_records texts password) no_change w)
          _ r w1 h in
      let ((own, _), ((shared, _), _)) =
        upsert_checked-AreFixed texts server lawful (glitchtip_records texts password) no_change r0
          w wa one in
      let later =
        subst (λ (y : Result OpenBaoError InternalResult × World server). Keeps server wa y.1) two
          ((upsert_all-IsConvergent server lawful _ r0).safe wa) in
      (
        later "glitchtip/internal" "databasePassword" (str password) own,
        later "infra-postgres-operations/internal" "glitchtipPassword" (str password) shared,
      )

  reconcile_contextforge_or_not-IsSafe :
      (email : Option String) → IsSafe server (reconcile_contextforge texts server email)
  unfolding reconcile_contextforge
  reconcile_contextforge_or_not-IsSafe none w = Keeps-refl server w
  reconcile_contextforge_or_not-IsSafe (some email) w =
      reconcile_contextforge-IsSafe texts server lawful email w

  pub reconcile_services-IsSafe :
      (email : Option String) (glitchtip : Bool) (r : InternalResult)
      → IsSafe server (reconcile_services texts server email glitchtip r)
  unfolding reconcile_services
  reconcile_services-IsSafe email glitchtip r =
      bind-IsSafe server (reconcile_contextforge texts server email) _
        (reconcile_contextforge_or_not-IsSafe email)
        (λ one.
          bind-IsSafe server (reconcile_glitchtip texts server glitchtip) _
            (reconcile_glitchtip-IsSafe glitchtip) (λ two w. Keeps-refl server w))

  -- Whether reconcile_internal_credentials goes through or raises at any point: every value of every
  -- record that was held is still there.
  pub reconcile_internal_credentials-Keeps :
      (passwords : Dict String) (docling : Bool) (email : Option String) (glitchtip : Bool)
      (w : World server)
      → Keeps server w
          (reconcile_internal_credentials texts server passwords docling email glitchtip w).1
  unfolding reconcile_internal_credentials
  reconcile_internal_credentials-Keeps passwords docling email glitchtip =
      bind-IsSafe server (lift (validate_bootstrap_passwords passwords)) _
        (λ w. Keeps-refl server w)
        (λ _.
          bind-IsSafe server (reconcile_records texts server passwords docling) _
            (reconcile_records-IsConvergent texts server lawful passwords docling).safe
            (reconcile_services-IsSafe email glitchtip))

  module _ (random : IsRandom texts) where
    reconcile_glitchtip-IsConvergent :
        (enabled : Bool)
        → IsConvergent server ChangesNothing
            (reconcile_glitchtip texts server enabled)
            (reconcile_glitchtip texts server enabled)
    unfolding reconcile_glitchtip
    reconcile_glitchtip-IsConvergent false =
        return-IsConvergent server ChangesNothing no_change no_change refl
    reconcile_glitchtip-IsConvergent true = record {
      safe = reconcile_glitchtip-IsSafe true;
      settled = again;
    }
      where
        again :
            IsSettledBy server ChangesNothing
              (reconcile_glitchtip texts server true)
              (reconcile_glitchtip texts server true)
        again w r w2 h w' kept readable =
            let (p, (w1, one, two)) =
              continue-eq_ok (glitchtip_database_password texts server w) upsert_glitchtip r w2 h in
            let (own, shared) = upsert_glitchtip-stored p w1 w2 r two in
            let present =
              glitchtip_database_password-present texts server lawful p w' readable
                (kept "glitchtip/internal" "databasePassword" (str p) own)
                (kept "infra-postgres-operations/internal" "glitchtipPassword" (str p) shared)
                (glitchtip_database_password-IsGood texts server lawful random w w1 p one) in
            let (r', second, same) =
              (upsert_glitchtip-IsConvergent p).settled w1 r w2 two w' kept readable in
            (
              r',
              ap (λ (y : Result OpenBaoError String × World server). continue y upsert_glitchtip)
                    present
                  ∙ second,
              same,
            )

    reconcile_contextforge_or_not-IsConvergent :
        (email : Option String)
        → IsConvergent server ChangesNothing
            (reconcile_contextforge texts server email)
            (reconcile_contextforge texts server email)
    unfolding reconcile_contextforge
    reconcile_contextforge_or_not-IsConvergent none =
        return-IsConvergent server ChangesNothing no_change no_change refl
    reconcile_contextforge_or_not-IsConvergent (some email) =
        reconcile_contextforge-IsConvergent texts server lawful email random

    reconcile_services-IsConvergent :
        (email : Option String) (glitchtip : Bool) (r : InternalResult)
        → IsConvergent server ChangesNothing
            (reconcile_services texts server email glitchtip r)
            (reconcile_services texts server email glitchtip no_change)
    unfolding reconcile_services
    reconcile_services-IsConvergent email glitchtip r =
        result-after server lawful ChangesNothing _ _ _ _
          (reconcile_contextforge_or_not-IsConvergent email)
          (λ one.
            result-after server lawful ChangesNothing _ _ _ _
              (reconcile_glitchtip-IsConvergent glitchtip)
              (λ two.
                return-IsConvergent server ChangesNothing (merge (merge r one) two) no_change refl))

    -- Once reconcile_internal_credentials has gone through, it goes through again with the same
    -- arguments on every state that still has the values of all records and on which no read is
    -- refused; and it then reports no change, writes nothing and draws no random value.
    pub reconcile_internal_credentials-again :
        (passwords : Dict String) (docling : Bool) (email : Option String) (glitchtip : Bool)
        (w w1 w' : World server) (r : InternalResult)
        → reconcile_internal_credentials texts server passwords docling email glitchtip w
          ≡ (ok r, w1)
        → Keeps server w1 w'
        → IsReadable server w'
        → reconcile_internal_credentials texts server passwords docling email glitchtip w'
          ≡ (ok no_change, w')
    unfolding reconcile_internal_credentials
    reconcile_internal_credentials-again passwords docling email glitchtip w w1 w' r h kept
          readable =
        let (r', second, same) = whole.settled w r w1 h w' kept readable in
        second ∙ ap (λ (x : InternalResult). (ok x, w')) same
      where
        whole :
            IsConvergent server ChangesNothing
              (reconcile_internal_credentials texts server passwords docling email glitchtip)
              (reconcile_internal_credentials texts server passwords docling email glitchtip)
        whole =
            lift-IsConvergent server ChangesNothing _ _ _ _ (λ u valid. valid)
              (λ u.
                result-after server lawful ChangesNothing _ _ _ _
                  (reconcile_records-IsConvergent texts server lawful passwords docling)
                  (reconcile_services-IsConvergent email glitchtip))
