-- ===== src/OpenBao/Upsert/Stored.antt =====
-- credentials.py: what `_upsert` stores, and that it loses nothing.
use k8s_stack_tooling.Prelude.{
  ℕ, zero, suc, String, Bool, true, false, Option, ◌≡◌, refl, sym, ◌∙◌, ap, subst, Result, ok, err,
  Dict,
}
use k8s_stack_tooling.Value.{Value}
use k8s_stack_tooling.OpenBao.Kv.{
  SecretRecord, OpenBaoError, Server, IsLawful, Run, ◌>>=◌ as bind, continue, return, lift, World,
  answer,
}
use k8s_stack_tooling.OpenBao.Kv.Kept.{
  AreKept, values_of, held_values, Keeps, Keeps-refl, IsSafe, continue-Keeps, write_secret-Keeps,
}
use k8s_stack_tooling.OpenBao.Kv.Settled.{continue-eq_ok, over-eq_ok, lift-eq_ok, read_secret-eq_ok}
use k8s_stack_tooling.OpenBao.Upsert.{
  Generators, Filled, generate, fix, version_of, fill, store, upsert,
}
use k8s_stack_tooling.OpenBao.Upsert.Steps.{IsStep, IsStep-trans, generate-IsStep, fix-IsStep}

module _ (server : Server) (lawful : IsLawful server) (path : String) (generators : Generators)
    (fixed : Dict String) where
  abbrev pub filled : Dict Value → ℕ → Filled
  filled d n = generate generators (record { values = d; added = 0; drawn = n })

  -- What the loops make of the values that are there.
  abbrev pub loops : Dict Value → ℕ → Result OpenBaoError (Dict Value × ℕ)
  loops d n = fix fixed (filled d n).values (filled d n).added

  loops-IsStep :
      (d : Dict Value) (n : ℕ) (r : Dict Value × ℕ) → loops d n ≡ ok r → IsStep d 0 r.0 r.1
  loops-IsStep d n r h =
      IsStep-trans d (filled d n).values r.0 0 (filled d n).added r.1
        (generate-IsStep generators (record { values = d; added = 0; drawn = n }))
        (fix-IsStep fixed (filled d n).values (filled d n).added r h).0

  abbrev pub stores : ℕ → Dict Value × ℕ → Run (World server) (Dict Value × ℕ)
  stores cas r = bind (store server path r.0 r.1 cas) (λ _. return r)

  abbrev pub after_read : Option SecretRecord → Run (World server) (Dict Value × ℕ)
  after_read current =
      bind (fill server generators (values_of current))
        (λ f. bind (lift (fix fixed f.values f.added)) (stores (version_of current)))

  store-Keeps :
      (d : Dict Value) (n cas : ℕ) (w : World server)
      → AreKept (held_values server w path) d
      → Keeps server w (store server path d n cas w).1
  store-Keeps d zero cas w kept = Keeps-refl server w
  store-Keeps d (suc n) cas w kept = write_secret-Keeps server lawful path d cas w kept

  loops-Keeps :
      (w : World server) (cas : ℕ) (x : Result OpenBaoError (Dict Value × ℕ))
      → ((r : Dict Value × ℕ) → x ≡ ok r → AreKept (held_values server w path) r.0)
      → Keeps server w (continue (x, w) (stores cas)).1
  loops-Keeps w cas (err e) kept = Keeps-refl server w
  loops-Keeps w cas (ok r) kept =
      continue-Keeps server w (store server path r.0 r.1 cas w) (λ _. return r)
        (store-Keeps r.0 r.1 cas w (kept r refl)) (λ _ w1. Keeps-refl server w1)

  pub upsert-IsSafe : IsSafe server (upsert server path generators fixed)
  unfolding upsert
  upsert-IsSafe w = go (server.read w.state path) refl
    where
      go :
          (x : Result OpenBaoError (Option SecretRecord))
          → server.read w.state path ≡ x
          → Keeps server w (continue (x, w) after_read).1
      go (err e) h = Keeps-refl server w
      go (ok current) h =
          let same = lawful.read_held w.state path current h in
          loops-Keeps
            (record { state = w.state; drawn = (filled (values_of current) w.drawn).drawn })
            (version_of current) (loops (values_of current) w.drawn)
            (λ r e.
              subst (λ (c : Option SecretRecord). AreKept (values_of c) r.0) same
                (loops-IsStep (values_of current) w.drawn r e).kept)

  -- The values that _upsert returns come from those held before, and are held afterwards.
  pub record IsUpserted (w w1 : World server) (r : Dict Value × ℕ) : Type 0 where
    pub looped : loops (held_values server w path) w.drawn ≡ ok r
    pub stored : held_values server w1 path ≡ r.0

  answer-eq_ok : (b : Bool) → answer server b ≡ ok tt → b ≡ true
  answer-eq_ok true h = refl
  answer-eq_ok false h = cc h

  store-held :
      (d : Dict Value) (n cas : ℕ) (w w1 : World server)
      → (n ≡ 0 → d ≡ held_values server w path)
      → store server path d n cas w ≡ (ok tt, w1)
      → held_values server w1 path ≡ d
  store-held d zero cas w w1 same h =
      let e : w ≡ w1 = cc h in
      subst (λ (x : World server). held_values server x path ≡ d) e (sym (same refl))
  store-held d (suc n) cas w w1 same h =
      let sent = server.write w.state path d cas in
      let sent_world : World server = record { state = sent.1; drawn = w.drawn } in
      let (answered, same_end) = over-eq_ok (answer server sent.0) (ok tt) sent_world w1 h in
      let (v, held) = lawful.write_done w.state path d cas (answer-eq_ok sent.0 answered) in
      subst (λ (x : World server). held_values server x path ≡ d) same_end (ap values_of held)

  pub upsert-eq_ok :
      (w w1 : World server) (r : Dict Value × ℕ)
      → upsert server path generators fixed w ≡ (ok r, w1)
      → IsUpserted w w1 r
  unfolding upsert
  upsert-eq_ok w w1 r h =
      let current = server.held w.state path in
      let d = values_of current in
      let wf : World server = record { state = w.state; drawn = (filled d w.drawn).drawn } in
      let (r0, looped, h1) =
        lift-eq_ok (loops d w.drawn) (stores (version_of current)) wf w1 r
          (read_secret-eq_ok server lawful path after_read w w1 r h) in
      let (u, (wc, stored, h2)) =
        continue-eq_ok (store server path r0.0 r0.1 (version_of current) wf) _ r w1 h1 in
      let same_result : r0 ≡ r = cc h2 in
      let same_end : wc ≡ w1 = cc h2 in
      record {
        looped = looped ∙ ap ok same_result;
        stored =
            subst (λ (v : World server). held_values server v path ≡ r.0) same_end
              (store-held r0.0 r0.1 (version_of current) wf wc
                  (loops-IsStep d w.drawn r0 looped).same stored
                ∙ ap (λ (x : Dict Value × ℕ). x.0) same_result);
      }
