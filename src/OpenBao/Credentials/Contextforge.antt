-- ===== src/OpenBao/Credentials/Contextforge.antt =====
-- credentials.py: `_reconcile_contextforge`, which tests the fields that are there before it adds others.
use k8s_stack_tooling.Prelude.{
  ℕ, String, true, false, Option, some, [], ◌∷◌, ◌≡◌, ◌⊎◌, inl, inr, refl, sym, ◌∙◌, subst, str_eq,
  ok, Dict, All,
}
use k8s_stack_tooling.Value.{Value}
use k8s_stack_tooling.OpenBao.Kv.{
  SecretRecord, Server, IsLawful, Run, ◌>>=◌ as bind, lift, World, read_secret,
}
use k8s_stack_tooling.OpenBao.Kv.Kept.{values_of, held_values, Keeps-refl, IsSafe, bind-IsSafe}
use k8s_stack_tooling.OpenBao.Kv.Settled.{lift-eq_ok, read_secret-eq_ok, IsSettledBy, IsConvergent}
use k8s_stack_tooling.OpenBao.Upsert.{Generators, no_change, count_change, required_text, upsert}
use k8s_stack_tooling.OpenBao.Upsert.Additions.{
  OnlyAdds, OnlyAdds-trans, generate-OnlyAdds, fix-OnlyAdds,
}
use k8s_stack_tooling.OpenBao.Upsert.Stored.{filled, upsert-IsSafe, IsUpserted, upsert-eq_ok}
use k8s_stack_tooling.OpenBao.Upsert.Again.{
  IsSame, ChangesNothing, upsert-HasFixed, upsert-IsConvergent, after-IsConvergent,
  required_text-after, upsert_all-IsConvergent,
}
use k8s_stack_tooling.OpenBao.Credentials.{
  Texts, random_fields, random_secret, is_broken, check_present, contextforge_fields,
}
use k8s_stack_tooling.OpenBao.Credentials.Services.{upsert_contextforge, reconcile_contextforge}
use k8s_stack_tooling.OpenBao.Credentials.Good.{
  IsRandom, IsGood, IsGoodIn, check_present-IsGoodIn, check_present-again,
}

module _ (texts : Texts) (server : Server) (lawful : IsLawful server) (admin_email : String) where
  abbrev pub own : String
  own = "contextforge/internal"

  abbrev pub email_field : Dict String
  email_field = ("platformAdminEmail", admin_email) ∷ []

  abbrev pub own_fields : Generators
  own_fields = random_fields texts contextforge_fields

  abbrev pub own_upsert : Run (World server) (Dict Value × ℕ)
  own_upsert = upsert server own own_fields email_field

  abbrev pub after_current : Option SecretRecord → Run (World server) (Dict Value × ℕ)
  after_current current =
      bind (lift (check_present (is_broken texts) (values_of current) contextforge_fields))
        (λ _. own_upsert)

  -- What _upsert may add there, but for the address.
  abbrev MayAdd : String → String → Type 0
  MayAdd name s = (IsGood (is_broken texts) s) ⊎ (str_eq name "platformAdminEmail" ≡ true)

  pub upsert_contextforge-IsSafe : IsSafe server (upsert_contextforge texts server admin_email)
  unfolding upsert_contextforge
  upsert_contextforge-IsSafe =
      bind-IsSafe server (read_secret server own) _ (λ w. Keeps-refl server w)
        (λ current.
          bind-IsSafe server
            (lift (check_present (is_broken texts) (values_of current) contextforge_fields)) _
            (λ w. Keeps-refl server w)
            (λ _. upsert-IsSafe server lawful own own_fields email_field))

  pub reconcile_contextforge-IsSafe :
      IsSafe server (reconcile_contextforge texts server (some admin_email))
  unfolding reconcile_contextforge
  reconcile_contextforge-IsSafe =
      bind-IsSafe server (upsert_contextforge texts server admin_email) _ upsert_contextforge-IsSafe
        (λ x.
          bind-IsSafe server (lift (required_text x.0 "postgresqlPassword")) _
            (λ w. Keeps-refl server w)
            (λ password.
              (upsert_all-IsConvergent server lawful _
                (count_change no_change "contextforge/internal" x.1)).safe))

  module _ (random : IsRandom texts) where
    random-IsGood : (n : ℕ) → IsGood (is_broken texts) (random_secret texts n)
    random-IsGood n = (random.nonempty n, random.unbroken n)

    upsert-MayAdd :
        (w w1 : World server) (r : Dict Value × ℕ)
        → IsUpserted server lawful own own_fields email_field w w1 r
        → OnlyAdds MayAdd (held_values server w own) (held_values server w1 own)
    upsert-MayAdd w w1 r u =
        let f =
          filled server lawful own own_fields email_field (held_values server w own) w.drawn in
        let any_random = λ (n : ℕ). inl (random-IsGood n) in
        subst (OnlyAdds MayAdd (held_values server w own)) (sym u.stored) (
          OnlyAdds-trans MayAdd (held_values server w own) f.values r.0
            (generate-OnlyAdds MayAdd own_fields _
              (any_random, (any_random, (any_random, (any_random, (any_random, tt))))))
            (fix-OnlyAdds MayAdd email_field f.values f.added r (inr refl, tt) u.looped))

    not_email :
        (name : String)
        → str_eq name "platformAdminEmail" ≡ false
        → (s : String) → MayAdd name s
        → IsGood (is_broken texts) s
    not_email name other s (inl good) = good
    not_email name other s (inr same) = cc (sym other ∙ same)

    -- Each field that is there in the end passes the test: it passed before, or it is random.
    fields-AreGood :
        (w w1 : World server) (r : Dict Value × ℕ)
        → IsUpserted server lawful own own_fields email_field w w1 r
        → check_present (is_broken texts) (held_values server w own) contextforge_fields ≡ ok tt
        → All (IsGoodIn (is_broken texts) (held_values server w1 own)) contextforge_fields
    fields-AreGood w w1 r u passed =
        check_present-IsGoodIn (is_broken texts) MayAdd (held_values server w own)
          (held_values server w1 own) contextforge_fields (upsert-MayAdd w w1 r u)
          (
            not_email "postgresqlPassword" refl,
            (
              not_email "jwtSecretKey" refl,
              (
                not_email "authEncryptionSecret" refl,
                (
                  not_email "platformAdminPassword" refl,
                  (not_email "defaultUserPassword" refl, tt),
                ),
              ),
            ),
          )
          passed

    upsert_contextforge-settled :
        IsSettledBy server IsSame
          (upsert_contextforge texts server admin_email)
          (upsert_contextforge texts server admin_email)
    unfolding upsert_contextforge
    upsert_contextforge-settled w r w1 h w' kept readable =
        let present = λ (c : Option SecretRecord).
          check_present (is_broken texts) (values_of c) contextforge_fields in
        let current = server.held w.state own in
        let (_, passed, upserted) =
          lift-eq_ok (present current) (λ _. own_upsert) w w1 r
            (read_secret-eq_ok server lawful own after_current w w1 r h) in
        let u = upsert-eq_ok server lawful own own_fields email_field w w1 r upserted in
        let again =
          check_present-again (is_broken texts) texts (held_values server w1 own)
            (held_values server w' own) contextforge_fields
            (upsert-HasFixed server lawful own own_fields email_field w w1 r u).0 (kept own)
            (fields-AreGood w w1 r u passed) in
        let (r', second, same) =
          (upsert-IsConvergent server lawful own own_fields email_field).settled w r w1 upserted w'
            kept readable in
        (r', rw (readable own) (rw again second), same)

    upsert_contextforge-IsConvergent :
        IsConvergent server IsSame
          (upsert_contextforge texts server admin_email)
          (upsert_contextforge texts server admin_email)
    upsert_contextforge-IsConvergent = record {
      safe = upsert_contextforge-IsSafe;
      settled = upsert_contextforge-settled;
    }

    pub reconcile_contextforge-IsConvergent :
        IsConvergent server ChangesNothing
          (reconcile_contextforge texts server (some admin_email))
          (reconcile_contextforge texts server (some admin_email))
    unfolding reconcile_contextforge
    reconcile_contextforge-IsConvergent =
        after-IsConvergent server lawful ChangesNothing
          (upsert_contextforge texts server admin_email)
          (upsert_contextforge texts server admin_email) _ _ upsert_contextforge-IsConvergent
          (λ v v' c kept.
            required_text-after server lawful ChangesNothing v v' _ _ _ kept
              (λ password. upsert_all-IsConvergent server lawful _ _))
