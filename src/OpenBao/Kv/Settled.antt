-- ===== src/OpenBao/Kv/Settled.antt =====
-- client.py: when a run that went through has nothing left to do the next time.
use k8s_stack_tooling.Prelude.{String, Option, ◌≡◌, refl, ◌∙◌, ap, subst, Result, ok, err}
use k8s_stack_tooling.OpenBao.Kv.{
  SecretRecord, OpenBaoError, Server, IsLawful, Run, ◌>>=◌ as bind, continue, return, lift, World,
  read_secret,
}
use k8s_stack_tooling.OpenBao.Kv.Kept.{Keeps, Keeps-refl, Keeps-trans, IsSafe, bind-IsSafe}

pub continue-eq_ok :
    {W A B : Type 0} (r : Result OpenBaoError A × W) (k : A → Run W B) (b : B) (w2 : W)
    → continue r k ≡ (ok b, w2)
    → (a : A) × ((w1 : W) × (r ≡ (ok a, w1)) × (k a w1 ≡ (ok b, w2)))
continue-eq_ok (ok a, w1) k b w2 h = (a, (w1, refl, h))
continue-eq_ok (err e, w1) k b w2 h = cc h

-- The result and the state of a run that is over.
pub over-eq_ok :
    {W A : Type 0} (r s : Result OpenBaoError A) (w w1 : W)
    → ◌≡◌ {A = Result OpenBaoError A × W} (r, w) (s, w1)
    → (r ≡ s) × (w ≡ w1)
over-eq_ok {W} {A} r s w w1 h =
    (ap (λ (y : Result OpenBaoError A × W). y.0) h, ap (λ (y : Result OpenBaoError A × W). y.1) h)

pub lift-eq_ok :
    {W A B : Type 0} (r : Result OpenBaoError A) (k : A → Run W B) (w w1 : W) (b : B)
    → bind (lift r) k w ≡ (ok b, w1)
    → (a : A) × (r ≡ ok a) × (k a w ≡ (ok b, w1))
lift-eq_ok (ok a) k w w1 b h = (a, refl, h)
lift-eq_ok (err e) k w w1 b h = cc h

module _ (server : Server) where
  -- A read that is not refused finds what is held.
  pub read_secret-eq_ok :
      {B : Type 0}
      → IsLawful server
      → (path : String) (k : Option SecretRecord → Run (World server) B) (w w1 : World server)
        (b : B)
      → bind (read_secret server path) k w ≡ (ok b, w1)
      → k (server.held w.state path) w ≡ (ok b, w1)
  read_secret-eq_ok lawful path k w w1 b h =
      let (current, read, after) = lift-eq_ok (server.read w.state path) k w w1 b h in
      rw (lawful.read_held w.state path current read) at after

  -- No read is refused.
  abbrev pub IsReadable : World server → Type 0
  IsReadable w = (path : String) → server.read w.state path ≡ ok (server.held w.state path)

  -- When `m` has gone through, `m'` goes through on every state that keeps what was then held, and
  -- changes nothing, also in how many values are drawn.
  abbrev pub IsSettledBy :
      {A : Type 0} → (A → A → Type 0) → Run (World server) A → Run (World server) A → Type 0
  IsSettledBy {A} R m m' =
      (w : World server) (a : A) (w1 : World server)
      → m w ≡ (ok a, w1)
      → (w' : World server) → Keeps server w1 w'
      → IsReadable w'
      → (a' : A) × (m' w' ≡ (ok a', w')) × R a a'

  -- `m` loses nothing, and `m'` settles.
  pub record IsConvergent {A : Type 0} (R : A → A → Type 0) (m m' : Run (World server) A)
      : Type 0 where
    pub safe : IsSafe server m
    pub settled : IsSettledBy R m m'

  pub return-IsConvergent :
      {A : Type 0} (R : A → A → Type 0) (a a' : A) → R a a' → IsConvergent R (return a) (return a')
  return-IsConvergent R a a' r = record {
    safe = λ w. Keeps-refl server w;
    settled = λ w b w1 h w' kept readable. (a', refl, subst (λ (x : _). R x a') (cc h) r);
  }

  -- A run after one that settles, for results that belong together.
  pub bind-IsConvergent :
      {A B : Type 0} (R : A → A → Type 0) (S : B → B → Type 0) (m m' : Run (World server) A)
      (k k' : A → Run (World server) B)
      → IsConvergent R m m'
      → ((a : A) → IsSafe server (k a))
      → ((a a' : A) → R a a' → IsSettledBy S (k a) (k' a'))
      → IsConvergent S (bind m k) (bind m' k')
  bind-IsConvergent {A} {B} R S m m' k k' c safe settled = record {
    safe = bind-IsSafe server m k c.safe safe;
    settled = again;
  }
    where
      again : IsSettledBy S (bind m k) (bind m' k')
      again w b w2 h w' kept readable =
          let (a, (w1, one, two)) = continue-eq_ok (m w) k b w2 h in
          let later = subst (λ (x : _ × World server). Keeps server w1 x.1) two (safe a w1) in
          let (a', first, r) =
            c.settled w a w1 one w' (Keeps-trans server w1 w2 w' later kept) readable in
          let (b', second, s) = settled a a' r w1 b w2 two w' kept readable in
          (b', ap (λ (x : _). continue x k') first ∙ second, s)

  -- A test of values, where both runs have the same result.
  pub lift-IsConvergent :
      {A B : Type 0} (S : B → B → Type 0) (r r' : Result OpenBaoError A)
      (k k' : A → Run (World server) B)
      → ((a : A) → r ≡ ok a → r' ≡ ok a)
      → ((a : A) → IsConvergent S (k a) (k' a))
      → IsConvergent S (bind (lift r) k) (bind (lift r') k')
  lift-IsConvergent S (err e) r' k k' same c = record {
    safe = λ w. Keeps-refl server w;
    settled = λ w b w2 h. cc h;
  }
  lift-IsConvergent S (ok a) r' k k' same c = record {
    safe = (c a).safe;
    settled = λ w b w2 h w' kept readable.
        let (b', second, s) = (c a).settled w b w2 h w' kept readable in
        (b', ap (λ (x : Result OpenBaoError _). continue (x, w') k') (same a refl) ∙ second, s);
  }
