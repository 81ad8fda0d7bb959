-- ===== src/OpenBao/Kv/Ensured.antt =====
-- client.py: what holds at the end of a run that went through, and stays so while no value is lost.
use k8s_stack_tooling.Prelude.{◌≡◌, refl, subst, Result, ok, err}
use k8s_stack_tooling.OpenBao.Kv.{OpenBaoError, Server, Run, ◌>>=◌ as bind, lift, World}
use k8s_stack_tooling.OpenBao.Kv.Kept.{Keeps, Keeps-refl, IsSafe, bind-IsSafe}
use k8s_stack_tooling.OpenBao.Kv.Settled.{continue-eq_ok}

module _ (server : Server) where
  abbrev pub IsStable : (World server → Type 0) → Type 0
  IsStable P = (w w' : World server) → Keeps server w w' → P w → P w'

  -- The run loses nothing, and `P` holds when it has gone through.
  pub record IsEnsured {A : Type 0} (P : World server → Type 0) (m : Run (World server) A)
      : Type 0 where
    pub safe : IsSafe server m
    pub ends : (w : World server) (a : A) (w1 : World server) → m w ≡ (ok a, w1) → P w1

  pub weaken :
      {A : Type 0} (P Q : World server → Type 0) (m : Run (World server) A)
      → IsEnsured P m
      → ((w : World server) → P w → Q w)
      → IsEnsured Q m
  weaken P Q m e f = record { safe = e.safe; ends = λ w a w1 h. f w1 (e.ends w a w1 h) }

  pub safe-IsEnsured :
      {A : Type 0} (P : World server → Type 0) (m : Run (World server) A)
      → IsSafe server m
      → ((w : World server) → P w)
      → IsEnsured P m
  safe-IsEnsured P m safe p = record { safe = safe; ends = λ w a w1 h. p w1 }

  -- What the first run ensures is there at the end of the second one.
  pub bind-IsEnsured :
      {A B : Type 0} (Q : A → World server → Type 0) (P : World server → Type 0)
      (m : Run (World server) A) (k : A → Run (World server) B)
      → IsSafe server m
      → ((w : World server) (a : A) (w1 : World server) → m w ≡ (ok a, w1) → Q a w1)
      → ((a : A) → IsStable (Q a))
      → ((a : A) → IsEnsured (λ w. Q a w → P w) (k a))
      → IsEnsured P (bind m k)
  bind-IsEnsured Q P m k safe first stable second = record {
    safe = bind-IsSafe server m k safe (λ a. (second a).safe);
    ends = λ w b w2 h.
        let (a, (w1, one, two)) = continue-eq_ok (m w) k b w2 h in
        let later =
          subst (λ (x : _ × World server). Keeps server w1 x.1) two ((second a).safe w1) in
        (second a).ends w1 b w2 two (stable a w1 w2 later (first w a w1 one));
  }

  -- A run after a test that has passed.
  pub lift-IsEnsured :
      {A B : Type 0} (P : World server → Type 0) (r : Result OpenBaoError A)
      (k : A → Run (World server) B)
      → ((a : A) → r ≡ ok a → IsEnsured P (k a))
      → IsEnsured P (bind (lift r) k)
  lift-IsEnsured P (err e) k c = record { safe = λ w. Keeps-refl server w; ends = λ w b w1 h. cc h }
  lift-IsEnsured P (ok a) k c = record {
    safe = (c a refl).safe;
    ends = λ w b w1 h. (c a refl).ends w b w1 h;
  }
