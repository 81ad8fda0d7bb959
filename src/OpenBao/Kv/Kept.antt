-- ===== src/OpenBao/Kv/Kept.antt =====
-- client.py: that no value of a record is lost or changed.
use k8s_stack_tooling.Prelude.{
  ℕ, String, Option, none, some, [], ◌≡◌, ◌⊎◌, inl, inr, refl, sym, subst, str_eq, eq_iff, Result,
  ok, err, Bool-cases, Dict, get_item,
}
use k8s_stack_tooling.Value.{Value}
use k8s_stack_tooling.OpenBao.Kv.{
  SecretRecord, Server, IsLawful, Holds, Run, ◌>>=◌ as bind, continue, World, write_secret,
}

abbrev pub AreKept : Dict Value → Dict Value → Type 0
AreKept d e = (name : String) (v : Value) → get_item name d ≡ some v → get_item name e ≡ some v

-- `dict(current.values) if current else {}`
abbrev pub values_of : Option SecretRecord → Dict Value
values_of none = []
values_of (some r) = r.values

pub AreKept-trans : (c d e : Dict Value) → AreKept c d → AreKept d e → AreKept c e
AreKept-trans c d e h k name x q = k name x (h name x q)

module _ (server : Server) where
  abbrev pub held_values : World server → String → Dict Value
  held_values w path = values_of (server.held w.state path)

  -- Every value of every record that is held is still there.
  abbrev pub Keeps : World server → World server → Type 0
  Keeps w w' = (path : String) → AreKept (held_values w path) (held_values w' path)

  pub Keeps-refl : (w : World server) → Keeps w w
  Keeps-refl w path name v h = h

  pub Keeps-trans : (u v w : World server) → Keeps u v → Keeps v w → Keeps u w
  Keeps-trans u v w h k path =
      AreKept-trans (held_values u path) (held_values v path) (held_values w path) (h path) (k path)

  abbrev pub IsSafe : {A : Type 0} → Run (World server) A → Type 0
  IsSafe m = (w : World server) → Keeps w (m w).1

  pub continue-Keeps :
      {A B : Type 0} (w : World server) (r : Result _ A × World server)
      (k : A → Run (World server) B)
      → Keeps w r.1
      → ((a : A) → IsSafe (k a))
      → Keeps w (continue r k).1
  continue-Keeps w (ok a, w1) k h safe = Keeps-trans w w1 (k a w1).1 h (safe a w1)
  continue-Keeps w (err e, w1) k h safe = h

  pub bind-IsSafe :
      {A B : Type 0} (m : Run (World server) A) (k : A → Run (World server) B)
      → IsSafe m
      → ((a : A) → IsSafe (k a))
      → IsSafe (bind m k)
  bind-IsSafe m k h safe w = continue-Keeps w (m w) k (h w) safe

  module _ (lawful : IsLawful server) where
    held-write :
        (s : server.State) (path : String) (values : Dict Value) (cas : ℕ) (other : String)
        → (server.held (server.write s path values cas).1 other ≡ server.held s other)
          ⊎ ((path ≡ other) × Holds (server.held (server.write s path values cas).1 other) values)
    held-write s path values cas other = elim (Bool-cases (str_eq path other)) [
      | inr different ↦ inl (lawful.write_other s path values cas other different)
      | inl same ↦ at_path other ((eq_iff path other).0 same)
    ]
      where
        at_path :
            (other : String)
            → path ≡ other
            → (server.held (server.write s path values cas).1 other ≡ server.held s other)
              ⊎ ((path ≡ other)
                  × Holds (server.held (server.write s path values cas).1 other) values)
        at_path other same =
            subst
              (λ (p : String).
                (server.held (server.write s path values cas).1 p ≡ server.held s p)
                ⊎ ((path ≡ p) × Holds (server.held (server.write s path values cas).1 p) values))
              same
              (elim (Bool-cases ((server.write s path values cas).0)) [
                | inl done ↦ inr (refl, lawful.write_done s path values cas done)
                | inr failed ↦ elim (lawful.write_refused s path values cas failed) [
                  | inl kept ↦ inl kept
                  | inr stored ↦ inr (refl, stored)
                ]
              ])

    pub write_secret-Keeps :
        (path : String) (values : Dict Value) (cas : ℕ) (w : World server)
        → AreKept (held_values w path) values
        → Keeps w (write_secret server path values cas w).1
    write_secret-Keeps path values cas w kept other name v e =
        elim (held-write w.state path values cas other) [
          | inl same ↦
              subst (λ (r : Option SecretRecord). get_item name (values_of r) ≡ some v) (sym same) e
          | inr (same, (n, stored)) ↦
              subst (λ (r : Option SecretRecord). get_item name (values_of r) ≡ some v) (sym stored)
                (kept name v
                  (subst (λ (p : String). get_item name (held_values w p) ≡ some v) (sym same) e))
        ]
