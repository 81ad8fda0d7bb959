-- ===== src/OpenBao/Credentials/Glitchtip.antt =====
-- credentials.py: `_reconcile_glitchtip`, whose database password has two copies.
use k8s_stack_tooling.Prelude.{
  String, Bool, true, false, some, List, [], ◌∷◌, ◌++◌, ◌≡◌, refl, sym, ap, subst, if◌then◌else◌,
  str_eq, eq_refl, Result, ok, err, >>=-eq_ok, ok_injective, Dict, get_item, is_some, All, keys_of,
  inl, inr, Bool-cases,
}
use k8s_stack_tooling.Value.{Value, str}
use k8s_stack_tooling.OpenBao.Kv.{
  OpenBaoError, conflict, Server, IsLawful, return, lift, World, read_secret,
}
use k8s_stack_tooling.OpenBao.Kv.Kept.{
  values_of, held_values, Keeps, Keeps-refl, IsSafe, bind-IsSafe,
}
use k8s_stack_tooling.OpenBao.Kv.Settled.{continue-eq_ok, over-eq_ok, lift-eq_ok, IsReadable}
use k8s_stack_tooling.OpenBao.Upsert.{Generators, InternalResult, count_change, upsert}
use k8s_stack_tooling.OpenBao.Upsert.Steps.{HasFixed, HasFixed-kept}
use k8s_stack_tooling.OpenBao.Upsert.Stored.{upsert-eq_ok}
use k8s_stack_tooling.OpenBao.Upsert.Again.{upsert-HasFixed}
use k8s_stack_tooling.OpenBao.Credentials.{
  Texts, is_unprintable, checked_text, checked_copy, check_fields,
}
use k8s_stack_tooling.OpenBao.Credentials.Services.{
  copy_of, agree, first_or_random, glitchtip_database_password, upsert_checked,
}
use k8s_stack_tooling.OpenBao.Credentials.Checks.{upsert_checked-IsConvergent}
use k8s_stack_tooling.OpenBao.Credentials.Good.{
  IsRandom, IsGood, checked_text-eq_ok, checked_text-good,
}

module _ (texts : Texts) (server : Server) (lawful : IsLawful server) where
  -- All records of the loop have their fixed fields.
  unfoldable pub AreFixed : List (String × (Generators × Dict String)) → World server → Type 0
  AreFixed [] w = Unit
  AreFixed ((path, (generators, fixed)) ∷ rest) w =
      HasFixed fixed (held_values server w path) × AreFixed rest w

  pub upsert_checked-AreFixed :
      (records : List (String × (Generators × Dict String))) (r0 r : InternalResult)
      (w w1 : World server)
      → upsert_checked texts server records r0 w ≡ (ok r, w1)
      → AreFixed records w1
  unfolding upsert_checked AreFixed
  upsert_checked-AreFixed [] r0 r w w1 h = tt
  upsert_checked-AreFixed ((path, (generators, fixed)) ∷ rest) r0 r w w1 h =
      let (x, (wa, upserted, h1)) =
        continue-eq_ok (upsert server path generators fixed w) _ r w1 h in
      let (u, (wb, checked, h2)) =
        continue-eq_ok (check_fields (is_unprintable texts) x.0 (keys_of generators), wa)
          (λ _. upsert_checked texts server rest (count_change r0 path x.1)) r w1 h1 in
      let same : wa ≡ wb =
        ap (λ (y : Result OpenBaoError (Unit {0}) × World server). y.1) checked in
      let has =
        (upsert-HasFixed server lawful path generators fixed w wa x
          (upsert-eq_ok server lawful path generators fixed w wa x upserted)).1 in
      let later =
        subst (λ (y : Result OpenBaoError InternalResult × World server). Keeps server wb y.1) h2
          ((upsert_checked-IsConvergent texts server lawful rest (count_change r0 path x.1)).safe
            wb) in
      (
        HasFixed-kept fixed (held_values server wa path) (held_values server w1 path)
            (subst (λ (v : World server). Keeps server v w1) (sym same) later path) has,
        upsert_checked-AreFixed rest (count_change r0 path x.1) r wb w1 h2,
      )

  abbrev AreGood : List String → Type 0
  AreGood = All (IsGood (is_unprintable texts))

  AreGood-append : (l m : List String) → AreGood l → AreGood m → AreGood (l ++ m)
  AreGood-append [] m a b = b
  AreGood-append (s ∷ l) m (g, a) b = (g, AreGood-append l m a b)

  copy_of-IsSafe : (path name : String) → IsSafe server (copy_of texts server path name)
  unfolding copy_of
  copy_of-IsSafe path name =
      bind-IsSafe server (read_secret server path) _ (λ w. Keeps-refl server w)
        (λ current w. elim (Bool-cases (is_some (get_item name (values_of current)))) [
          | inl there ↦ rw there (Keeps-refl server w)
          | inr missing ↦ rw missing (Keeps-refl server w)
        ])

  copy_of-AreGood :
      (path name : String) (w w1 : World server) (l : List String)
      → copy_of texts server path name w ≡ (ok l, w1)
      → AreGood l
  unfolding copy_of
  copy_of-AreGood path name w w1 l h =
      let (current, _, after) = lift-eq_ok (server.read w.state path) _ w w1 l h in
      good (values_of current) (is_some (get_item name (values_of current))) after
    where
      good :
          (d : Dict Value) (b : Bool)
          → (if b then lift (checked_copy (is_unprintable texts) d name) else return []) w
            ≡ (ok l, w1)
          → AreGood l
      good d false h = subst AreGood (ok_injective (over-eq_ok (ok []) (ok l) w w1 h).0) tt
      good d true h =
          let (t, one, two) =
            >>=-eq_ok (checked_text (is_unprintable texts) d name) _
              (over-eq_ok (checked_copy (is_unprintable texts) d name) (ok l) w w1 h).0 in
          subst AreGood (ok_injective two)
            ((checked_text-eq_ok (is_unprintable texts) d name t one).1, tt)

  agree-same : (l m : List String) → agree l ≡ ok m → l ≡ m
  agree-same [] m h = ok_injective h
  agree-same (a ∷ []) m h = ok_injective h
  agree-same (a ∷ b ∷ l) m h = same (str_eq a b) h
    where
      same : (t : Bool) → (if t then ok (a ∷ b ∷ l) else err conflict) ≡ ok m → (a ∷ b ∷ l) ≡ m
      same true h = ok_injective h
      same false h = cc h

  first_or_random-IsSafe : (l : List String) → IsSafe server (first_or_random texts server l)
  first_or_random-IsSafe [] w = Keeps-refl server w
  first_or_random-IsSafe (a ∷ l) w = Keeps-refl server w

  pub glitchtip_database_password-IsSafe : IsSafe server (glitchtip_database_password texts server)
  unfolding glitchtip_database_password
  glitchtip_database_password-IsSafe =
      bind-IsSafe server (copy_of texts server _ _) _ (copy_of-IsSafe _ _) (λ own.
        bind-IsSafe server (copy_of texts server _ _) _ (copy_of-IsSafe _ _) (λ shared.
          bind-IsSafe server (lift (agree (own ++ shared))) _ (λ w. Keeps-refl server w)
            first_or_random-IsSafe))

  module _ (random : IsRandom texts) where
    first_or_random-IsGood :
        (l : List String) (w w1 : World server) (p : String)
        → AreGood l
        → first_or_random texts server l w ≡ (ok p, w1)
        → IsGood (is_unprintable texts) p
    first_or_random-IsGood [] w w1 p a h =
        subst (IsGood (is_unprintable texts)) (ok_injective (over-eq_ok _ (ok p) _ w1 h).0)
          (random.nonempty w.drawn, random.printable w.drawn)
    first_or_random-IsGood (a ∷ l) w w1 p (g, _) h =
        subst (IsGood (is_unprintable texts)) (ok_injective (over-eq_ok _ (ok p) _ w1 h).0) g

    pub glitchtip_database_password-IsGood :
        (w w1 : World server) (p : String)
        → glitchtip_database_password texts server w ≡ (ok p, w1)
        → IsGood (is_unprintable texts) p
    unfolding glitchtip_database_password
    glitchtip_database_password-IsGood w w1 p h =
        let (own, (wa, one, h1)) =
          continue-eq_ok (copy_of texts server "glitchtip/internal" "databasePassword" w) _ p w1
            h in
        let (shared, (wb, two, h2)) =
          continue-eq_ok
            (copy_of texts server "infra-postgres-operations/internal" "glitchtipPassword" wa) _ p
            w1 h1 in
        let (l, agreed, h3) =
          lift-eq_ok (agree (own ++ shared)) (first_or_random texts server) wb w1 p h2 in
        first_or_random-IsGood l wb w1 p
          (subst AreGood (agree-same (own ++ shared) l agreed) (
            AreGood-append own shared (copy_of-AreGood _ _ w wa own one)
              (copy_of-AreGood _ _ wa wb shared two)))
          h3

  copy_of-present :
      (path name p : String) (w : World server)
      → IsReadable server w
      → get_item name (held_values server w path) ≡ some (str p)
      → IsGood (is_unprintable texts) p
      → copy_of texts server path name w ≡ (ok (p ∷ []), w)
  unfolding copy_of
  copy_of-present path name p w readable there good = rw (readable path) (
      rw (ap is_some there) (
        rw (checked_text-good (is_unprintable texts) (held_values server w path) name p there good)
          refl))

  pub glitchtip_database_password-present :
      (p : String) (w : World server)
      → IsReadable server w
      → get_item "databasePassword" (held_values server w "glitchtip/internal") ≡ some (str p)
      → get_item "glitchtipPassword" (held_values server w "infra-postgres-operations/internal")
        ≡ some (str p)
      → IsGood (is_unprintable texts) p
      → glitchtip_database_password texts server w ≡ (ok p, w)
  unfolding glitchtip_database_password
  glitchtip_database_password-present p w readable own shared good =
      rw (copy_of-present "glitchtip/internal" "databasePassword" p w readable own good) (
        rw
          (copy_of-present "infra-postgres-operations/internal" "glitchtipPassword" p w readable
            shared good)
          (rw (eq_refl p) refl))
