-- ===== src/OpenBao/Upsert/Ensured.antt =====
-- credentials.py: what is held after a call of `_upsert`, and the copies of a field in other records.
use k8s_stack_tooling.Prelude.{
  ℕ, String, false, some, List, [], ◌∷◌, ◌≡◌, sym, subst, str_eq, ok, Dict, get_item,
}
use k8s_stack_tooling.Value.{Value, str}
use k8s_stack_tooling.OpenBao.Kv.{Server, IsLawful, Run, ◌>>=◌ as bind, World}
use k8s_stack_tooling.OpenBao.Kv.Kept.{AreKept, AreKept-trans, held_values, Keeps-refl}
use k8s_stack_tooling.OpenBao.Kv.Ensured.{IsStable, IsEnsured, weaken, bind-IsEnsured}
use k8s_stack_tooling.OpenBao.Upsert.{
  Generators, InternalResult, count_change, upsert, upsert_all, required_text,
}
use k8s_stack_tooling.OpenBao.Upsert.Again.{required-eq_ok}
use k8s_stack_tooling.OpenBao.Upsert.Steps.{HasFixed, HasFixed-kept}
use k8s_stack_tooling.OpenBao.Upsert.Stored.{upsert-IsSafe, upsert-eq_ok}
use k8s_stack_tooling.OpenBao.Upsert.Again.{upsert-HasFixed}

module _ (server : Server) where
  -- The record has these values and its fixed fields.
  abbrev pub IsStored : String → Dict Value → Dict String → World server → Type 0
  IsStored path v fixed w =
      AreKept v (held_values server w path) × HasFixed fixed (held_values server w path)

  IsStored-stable :
      (path : String) (v : Dict Value) (fixed : Dict String)
      → IsStable server (IsStored path v fixed)
  IsStored-stable path v fixed w w' kept (values, has) = (
    AreKept-trans v (held_values server w path) (held_values server w' path) values (kept path),
    HasFixed-kept fixed (held_values server w path) (held_values server w' path) (kept path) has,
  )

  -- All records of a loop have their fixed fields.
  abbrev pub HaveFixed : List (String × (Generators × Dict String)) → World server → Type 0
  HaveFixed [] w = Unit
  HaveFixed ((path, (generators, fixed)) ∷ rest) w =
      HasFixed fixed (held_values server w path) × HaveFixed rest w

  pub HaveFixed-stable :
      (records : List (String × (Generators × Dict String))) → IsStable server (HaveFixed records)
  HaveFixed-stable [] w w' kept has = tt
  HaveFixed-stable ((path, (generators, fixed)) ∷ rest) w w' kept (one, has) = (
    HasFixed-kept fixed (held_values server w path) (held_values server w' path) (kept path) one,
    HaveFixed-stable rest w w' kept has,
  )

  -- The field of another record is the required text of these values.
  abbrev pub IsCopy : Dict Value → String → String → String → World server → Type 0
  IsCopy v name path other w =
      (text : String) × (required_text v name ≡ ok text)
      × (get_item other (held_values server w path) ≡ some (str text))

  -- Two records have the same text, which is not empty.
  abbrev pub IsShared : String → String → String → String → World server → Type 0
  IsShared path name other_path other w =
      (text : String) × (str_eq text "" ≡ false)
      × (get_item name (held_values server w path) ≡ some (str text))
      × (get_item other (held_values server w other_path) ≡ some (str text))

  pub IsShared-stable :
      (path name other_path other : String) → IsStable server (IsShared path name other_path other)
  IsShared-stable path name other_path other w w' kept (text, filled, one, two) =
      (text, filled, kept path name (str text) one, kept other_path other (str text) two)

  pub IsCopy-IsShared :
      (v : Dict Value) (path name other_path other : String) (w : World server)
      → IsCopy v name other_path other w
      → AreKept v (held_values server w path)
      → IsShared path name other_path other w
  unfolding required_text
  IsCopy-IsShared v path name other_path other w (text, is_text, there) kept =
      let (here, filled) = required-eq_ok (get_item name v) text is_text in
      (text, filled, kept name (str text) here, there)

  module _ (lawful : IsLawful server) where
    pub upsert-ensures :
        {B : Type 0} (P : World server → Type 0) (path : String) (generators : Generators)
        (fixed : Dict String)
        → (k : Dict Value × ℕ → Run (World server) B)
        → ((v : Dict Value) (c : ℕ)
            → IsEnsured server (λ w. IsStored path v fixed w → P w) (k (v, c)))
        → IsEnsured server P (bind (upsert server path generators fixed) k)
    upsert-ensures P path generators fixed k second =
        bind-IsEnsured server (λ (r : Dict Value × ℕ). IsStored path r.0 fixed) P
          (upsert server path generators fixed) k
          (upsert-IsSafe server lawful path generators fixed)
          (λ w r w1 h.
            let u = upsert-eq_ok server lawful path generators fixed w w1 r h in
            (
              subst (λ (d : Dict Value). AreKept r.0 d) (sym u.stored) (λ name v q. q),
              (upsert-HasFixed server lawful path generators fixed w w1 r u).1,
            ))
          (λ r. IsStored-stable path r.0 fixed) (λ r. second r.0 r.1)

    pub upsert_all-HaveFixed :
        (records : List (String × (Generators × Dict String))) (r : InternalResult)
        → IsEnsured server (HaveFixed records) (upsert_all server records r)
    unfolding upsert_all
    upsert_all-HaveFixed [] r = record { safe = λ w. Keeps-refl server w; ends = λ w a w1 h. tt }
    upsert_all-HaveFixed ((path, (generators, fixed)) ∷ rest) r =
        upsert-ensures (HaveFixed ((path, (generators, fixed)) ∷ rest)) path generators fixed _
          (λ v c.
            weaken server (HaveFixed rest) _ _ (upsert_all-HaveFixed rest (count_change r path c))
              (λ w has (values, own). (own, has)))
