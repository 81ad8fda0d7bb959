-- ===== src/OpenBao/Credentials/Delivered.antt =====
-- credentials.py: that the passwords handed to reconcile_internal_credentials are the ones stored.
use k8s_stack_tooling.Prelude.{
  String, Bool, Option, none, some, List, [], ◌∷◌, ◌≡◌, inl, inr, refl, ◌∙◌, ap, subst, str_eq,
  eq_iff, Bool-cases, ok, Dict, get_item, set_item, All,
}
use k8s_stack_tooling.Value.{Value, str}
use k8s_stack_tooling.OpenBao.Kv.{Server, IsLawful, World}
use k8s_stack_tooling.OpenBao.Kv.Kept.{held_values}
use k8s_stack_tooling.OpenBao.Kv.Ensured.{IsStable}
use k8s_stack_tooling.OpenBao.Upsert.{InternalResult}
use k8s_stack_tooling.OpenBao.Upsert.Steps.{HasFixed}
use k8s_stack_tooling.OpenBao.Credentials.{
  Texts, BootstrapPassword, bootstrap_passwords, add_bootstrap_field, bootstrap_password_fields,
}
use k8s_stack_tooling.OpenBao.Credentials.Reconcile.{reconcile_internal_credentials}
use k8s_stack_tooling.OpenBao.Credentials.Copies.{
  reconcile_records-ensures, reconcile_internal_credentials-ensures,
}

HasFixed-get_item :
    (fixed : Dict String) (d : Dict Value) (name t : String)
    → HasFixed fixed d
    → get_item name fixed ≡ some t
    → get_item name d ≡ some (str t)
HasFixed-get_item [] d name t has h = cc h
HasFixed-get_item ((n, u) ∷ rest) d name t (one, has) h = elim (Bool-cases (str_eq n name)) [
  | inr other ↦ HasFixed-get_item rest d name t has (rw other at h)
  | inl same ↦
      let u_eq : some u ≡ some t = rw same at h in
      subst (λ (x : String). get_item x d ≡ some (str t)) ((eq_iff n name).0 same)
        (one ∙ ap (λ (x : Option String). str_of x) u_eq)
]
  where
    str_of : Option String → Option Value
    str_of none = none
    str_of (some s) = some (str s)

-- The fields of a path, by what is handed over for each of the three passwords.
abbrev with_password_fields :
    String → List (Option String) → List BootstrapPassword → Dict String → Dict String
with_password_fields path [] ps fields = fields
with_password_fields path (o ∷ os) [] fields = fields
with_password_fields path (o ∷ os) (p ∷ ps) fields =
    with_password_fields path os ps (add_bootstrap_field path p o fields)

keycloak_given :
    (t : String) (l g : Option String)
    → get_item "adminPassword"
        (with_password_fields "auth-keycloak/internal" (some t ∷ l ∷ g ∷ []) bootstrap_passwords [])
      ≡ some t
keycloak_given t none none = refl
keycloak_given t none (some b) = refl
keycloak_given t (some a) none = refl
keycloak_given t (some a) (some b) = refl

langfuse_given :
    (t : String) (k g : Option String)
    → get_item "initUserPassword" (
        with_password_fields "monitor-langfuse/internal"
          (k ∷ some t ∷ g ∷ [])
          bootstrap_passwords
          [])
      ≡ some t
langfuse_given t none none = refl
langfuse_given t none (some b) = refl
langfuse_given t (some a) none = refl
langfuse_given t (some a) (some b) = refl

grafana_given :
    (t : String) (k l : Option String)
    → get_item "adminPassword" (
        set_item "adminUser" "admin" (
          with_password_fields "monitor-kube-prometheus-stack/internal"
            (k ∷ l ∷ some t ∷ [])
            bootstrap_passwords
            []))
      ≡ some t
grafana_given t none none = refl
grafana_given t none (some b) = refl
grafana_given t (some a) none = refl
grafana_given t (some a) (some b) = refl

module _ (texts : Texts) (server : Server) (lawful : IsLawful server)
    (passwords : Dict String) where
  abbrev grafana_fields : Dict String
  grafana_fields =
      set_item "adminUser" "admin"
        (bootstrap_password_fields "monitor-kube-prometheus-stack/internal" passwords)

  -- Each password that is handed over is the field of its record.
  abbrev pub AreDelivered : World server → Type 0
  AreDelivered w =
      All
        (λ (p : BootstrapPassword).
          (t : String)
          → get_item p.password_key passwords ≡ some t
          → get_item p.password_field (held_values server w p.path) ≡ some (str t))
        bootstrap_passwords

  AreDelivered-stable : IsStable server AreDelivered
  AreDelivered-stable w w' kept (k, (l, (g, _))) = (
    λ t h. kept _ _ (str t) (k t h),
    (λ t h. kept _ _ (str t) (l t h), (λ t h. kept _ _ (str t) (g t h), tt)),
  )

  fixed-AreDelivered :
      (w : World server)
      → HasFixed
          (bootstrap_password_fields "auth-keycloak/internal" passwords)
          (held_values server w "auth-keycloak/internal")
      → HasFixed
          (bootstrap_password_fields "monitor-langfuse/internal" passwords)
          (held_values server w "monitor-langfuse/internal")
      → HasFixed grafana_fields (held_values server w "monitor-kube-prometheus-stack/internal")
      → AreDelivered w
  unfolding bootstrap_password_fields
  fixed-AreDelivered w k l g = (
    λ t h. HasFixed-get_item _ _ "adminPassword" t k (rw h (keycloak_given t _ _)),
    (
      λ t h. HasFixed-get_item _ _ "initUserPassword" t l (rw h (langfuse_given t _ _)),
      (λ t h. HasFixed-get_item _ _ "adminPassword" t g (rw h (grafana_given t _ _)), tt),
    ),
  )

  -- When reconcile_internal_credentials has gone through, each password that was handed to it is what
  -- the field of its record holds.
  pub reconcile_internal_credentials-AreDelivered :
      (docling : Bool) (email : Option String) (glitchtip : Bool) (w w1 : World server)
      (r : InternalResult)
      → reconcile_internal_credentials texts server passwords docling email glitchtip w ≡ (ok r, w1)
      → AreDelivered w1
  reconcile_internal_credentials-AreDelivered docling email glitchtip w w1 r h =
      (reconcile_internal_credentials-ensures texts server lawful passwords AreDelivered
          AreDelivered-stable docling email glitchtip
          (reconcile_records-ensures texts server lawful passwords AreDelivered docling
            (λ k b l o t v e rest ho hl hb hk. fixed-AreDelivered v hk.1 hl.1 rest.9))).ends
        w r w1 h
