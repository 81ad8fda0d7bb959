-- ===== src/OpenBao/Credentials/Served.antt =====
-- credentials.py: the copies that `_reconcile_contextforge` and `_reconcile_glitchtip` leave.
use k8s_stack_tooling.Prelude.{
  ℕ, String, Bool, true, false, Option, none, some, ◌≡◌, sym, subst, ok, Dict, get_item,
}
use k8s_stack_tooling.Value.{Value, str}
use k8s_stack_tooling.OpenBao.Kv.{Server, IsLawful, World}
use k8s_stack_tooling.OpenBao.Kv.Kept.{AreKept, AreKept-trans, held_values, Keeps-refl}
use k8s_stack_tooling.OpenBao.Kv.Settled.{lift-eq_ok, read_secret-eq_ok}
use k8s_stack_tooling.OpenBao.Kv.Ensured.{
  IsStable, IsEnsured, weaken, safe-IsEnsured, bind-IsEnsured, lift-IsEnsured,
}
use k8s_stack_tooling.OpenBao.Upsert.{InternalResult}
use k8s_stack_tooling.OpenBao.Upsert.Stored.{upsert-eq_ok}
use k8s_stack_tooling.OpenBao.Upsert.Ensured.{
  IsShared, IsShared-stable, IsCopy-IsShared, upsert_all-HaveFixed,
}
use k8s_stack_tooling.OpenBao.Credentials.{Texts, validate_bootstrap_passwords}
use k8s_stack_tooling.OpenBao.Credentials.Services.{
  upsert_contextforge, reconcile_contextforge, glitchtip_database_password, reconcile_glitchtip,
}
use k8s_stack_tooling.OpenBao.Credentials.Contextforge.{
  own, own_fields, email_field, after_current, own_upsert, upsert_contextforge-IsSafe,
}
use k8s_stack_tooling.OpenBao.Credentials.Glitchtip.{glitchtip_database_password-IsSafe}
use k8s_stack_tooling.OpenBao.Credentials.Reconcile.{
  reconcile_records, reconcile_services, reconcile_internal_credentials,
}
use k8s_stack_tooling.OpenBao.Credentials.Records.{reconcile_records-IsConvergent}
use k8s_stack_tooling.OpenBao.Credentials.Converged.{
  upsert_glitchtip, upsert_glitchtip-IsConvergent, upsert_glitchtip-stored,
}

module _ (texts : Texts) (server : Server) (lawful : IsLawful server) where
  -- The password of the database of ContextForge and its copy, if there is an address.
  abbrev pub ContextforgeShared : Option String → World server → Type 0
  ContextforgeShared none w = Unit
  ContextforgeShared (some email) w =
      IsShared server "contextforge/internal" "postgresqlPassword"
        "infra-postgres-operations/internal" "contextforgePassword" w

  -- The password of the database of GlitchTip and its copy, if it is enabled.
  abbrev pub GlitchtipShared : Bool → World server → Type 0
  GlitchtipShared false w = Unit
  GlitchtipShared true w =
      (text : String) × (get_item "databasePassword" (held_values server w "glitchtip/internal")
        ≡ some (str text))
      × (get_item "glitchtipPassword" (held_values server w "infra-postgres-operations/internal")
          ≡ some (str text))

  ContextforgeShared-stable : (email : Option String) → IsStable server (ContextforgeShared email)
  ContextforgeShared-stable none w w' kept h = tt
  ContextforgeShared-stable (some email) w w' kept h = IsShared-stable server _ _ _ _ w w' kept h

  GlitchtipShared-stable : (enabled : Bool) → IsStable server (GlitchtipShared enabled)
  GlitchtipShared-stable false w w' kept h = tt
  GlitchtipShared-stable true w w' kept (text, one, two) =
      (text, kept _ _ (str text) one, kept _ _ (str text) two)

  upsert_contextforge-held :
      (email : String) (w w1 : World server) (r : Dict Value × ℕ)
      → upsert_contextforge texts server email w ≡ (ok r, w1)
      → AreKept r.0 (held_values server w1 "contextforge/internal")
  unfolding upsert_contextforge
  upsert_contextforge-held email w w1 r h =
      let (_, passed, upserted) =
        lift-eq_ok _ (λ _. own_upsert texts server lawful email) w w1 r
          (read_secret-eq_ok server lawful (own texts server lawful email)
            (after_current texts server lawful email) w w1 r h) in
      let u =
        upsert-eq_ok server lawful (own texts server lawful email)
          (own_fields texts server lawful email) (email_field texts server lawful email) w w1 r
          upserted in
      subst (λ (d : Dict Value). AreKept r.0 d) (sym u.stored) (λ name v q. q)

  reconcile_contextforge-ensures :
      (email : Option String)
      → IsEnsured server (ContextforgeShared email) (reconcile_contextforge texts server email)
  unfolding reconcile_contextforge
  reconcile_contextforge-ensures none = record {
    safe = λ w. Keeps-refl server w;
    ends = λ w a w1 h. tt;
  }
  reconcile_contextforge-ensures (some email) =
      bind-IsEnsured server
        (λ (x : Dict Value × ℕ) w. AreKept x.0 (held_values server w "contextforge/internal")) _
        (upsert_contextforge texts server email) _
        (upsert_contextforge-IsSafe texts server lawful email)
        (λ w r w1 h. upsert_contextforge-held email w w1 r h)
        (λ x w w' kept h.
          AreKept-trans x.0 (held_values server w "contextforge/internal")
            (held_values server w' "contextforge/internal") h (kept "contextforge/internal"))
        (λ x. lift-IsEnsured server _ _ _ (λ password e.
          weaken server _ _ _ (upsert_all-HaveFixed server lawful _ _) (λ w has held.
            IsCopy-IsShared server x.0 "contextforge/internal" "postgresqlPassword"
              "infra-postgres-operations/internal" "contextforgePassword" w (password, e, has.0.0)
              held)))

  reconcile_glitchtip-ensures :
      (enabled : Bool)
      → IsEnsured server (GlitchtipShared enabled) (reconcile_glitchtip texts server enabled)
  unfolding reconcile_glitchtip
  reconcile_glitchtip-ensures false = record {
    safe = λ w. Keeps-refl server w;
    ends = λ w a w1 h. tt;
  }
  reconcile_glitchtip-ensures true =
      bind-IsEnsured server (λ (x : String) w. Unit) (GlitchtipShared true)
        (glitchtip_database_password texts server) (upsert_glitchtip texts server lawful)
        (glitchtip_database_password-IsSafe texts server lawful) (λ w r w1 h. tt)
        (λ x w w' kept h. tt)
        (λ password. record {
          safe = (upsert_glitchtip-IsConvergent texts server lawful password).safe;
          ends = λ w r w1 h u.
              let (one, two) = upsert_glitchtip-stored texts server lawful password w w1 r h in
              (password, one, two);
        })

  abbrev pub AreServed : Option String → Bool → World server → Type 0
  AreServed email glitchtip w = ContextforgeShared email w × GlitchtipShared glitchtip w

  reconcile_services-ensures :
      (email : Option String) (glitchtip : Bool) (r : InternalResult)
      → IsEnsured server
          (AreServed email glitchtip)
          (reconcile_services texts server email glitchtip r)
  unfolding reconcile_services
  reconcile_services-ensures email glitchtip r =
      bind-IsEnsured server (λ (x : InternalResult). ContextforgeShared email) _ _ _
        (reconcile_contextforge-ensures email).safe (reconcile_contextforge-ensures email).ends
        (λ x. ContextforgeShared-stable email)
        (λ x.
          bind-IsEnsured server (λ (y : InternalResult). GlitchtipShared glitchtip) _ _ _
            (reconcile_glitchtip-ensures glitchtip).safe
            (reconcile_glitchtip-ensures glitchtip).ends (λ y. GlitchtipShared-stable glitchtip)
            (λ y.
              safe-IsEnsured server _ _ (λ w. Keeps-refl server w)
                (λ w shared forge. (forge, shared))))

  -- What the last loop leaves is there at the end.
  pub reconcile_internal_credentials-serves :
      (passwords : Dict String) (docling : Bool) (email : Option String) (glitchtip : Bool)
      → IsEnsured server
          (AreServed email glitchtip)
          (reconcile_internal_credentials texts server passwords docling email glitchtip)
  unfolding reconcile_internal_credentials
  reconcile_internal_credentials-serves passwords docling email glitchtip =
      lift-IsEnsured server _ (validate_bootstrap_passwords passwords) _ (λ u valid.
        bind-IsEnsured server (λ (x : InternalResult) w. Unit) _
          (reconcile_records texts server passwords docling)
          (reconcile_services texts server email glitchtip)
          (reconcile_records-IsConvergent texts server lawful passwords docling).safe
          (λ w r w1 h. tt) (λ x w w' kept h. tt)
          (λ x.
            weaken server (AreServed email glitchtip) _ _
              (reconcile_services-ensures email glitchtip x) (λ w h u. h)))
