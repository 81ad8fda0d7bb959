-- ===== src/OpenBao/Upsert/Again.antt =====
-- credentials.py: `_upsert` and what reads its values, when all is there already.
use k8s_stack_tooling.Prelude.{
  ok_injective, guard-eq_ok, str_eq, ℕ, String, Option, List, [], ◌∷◌, ◌≡◌, refl, sym, ◌∙◌, ap,
  subst, inl, inr, Result, ok, Dict, get_item, Option-cases, ok_injective, some, none, false,
}
use k8s_stack_tooling.Value.{Value, str}
use k8s_stack_tooling.OpenBao.Kv.{
  SecretRecord, OpenBaoError, Server, IsLawful, Run, ◌>>=◌ as bind, continue, lift, World,
}
use k8s_stack_tooling.OpenBao.Kv.Kept.{AreKept, values_of, held_values}
use k8s_stack_tooling.OpenBao.Kv.Settled.{
  IsSettledBy, IsConvergent, return-IsConvergent, bind-IsConvergent, lift-IsConvergent,
}
use k8s_stack_tooling.OpenBao.Upsert.{
  Generators, Filled, fix, version_of, upsert, upsert_all, required, required_text, InternalResult,
  no_change, count_change,
}
use k8s_stack_tooling.OpenBao.Upsert.Steps.{
  HasNames, HasFixed, HasNames-kept, HasFixed-kept, generate-HasNames, generate-present,
  fix-present, fix-IsStep,
}
use k8s_stack_tooling.OpenBao.Upsert.Stored.{
  filled, stores, after_read, upsert-IsSafe, IsUpserted, upsert-eq_ok,
}

-- The values are there the next time, where nothing is added.
abbrev pub IsSame : Dict Value × ℕ → Dict Value × ℕ → Type 0
IsSame r r' = AreKept r.0 r'.0 × (r'.1 ≡ 0)

abbrev pub ChangesNothing : InternalResult → InternalResult → Type 0
ChangesNothing r r' = r' ≡ no_change

pub required-eq_ok :
    (o : Option Value) (s : String) → required o ≡ ok s → (o ≡ some (str s)) × (str_eq s "" ≡ false)
required-eq_ok (some (str t)) s h =
    let (filled, same) = guard-eq_ok (str_eq t "") _ (ok t) h in
    let e : t ≡ s = ok_injective same in
    (ap (λ (x : String). some (str x)) e, subst (λ (x : String). str_eq x "" ≡ false) e filled)
required-eq_ok none s h = cc h
required-eq_ok (some _) s h = cc h

pub required_text-kept :
    (d e : Dict Value) (name text : String)
    → AreKept d e
    → required_text d name ≡ ok text
    → required_text e name ≡ ok text
unfolding required_text
required_text-kept d e name text kept h = elim (Option-cases (get_item name d)) [
  | inl missing ↦ cc (sym (ap required missing) ∙ h)
  | inr (v, there) ↦ ap required (kept name v there) ∙ (sym (ap required there) ∙ h)
]

module _ (server : Server) (lawful : IsLawful server) where
  module _ (path : String) (generators : Generators) (fixed : Dict String) where
    pub upsert-HasFixed :
        (w w1 : World server) (r : Dict Value × ℕ)
        → IsUpserted server lawful path generators fixed w w1 r
        → HasNames generators (held_values server w1 path)
          × HasFixed fixed (held_values server w1 path)
    upsert-HasFixed w w1 r u =
        let f = filled server lawful path generators fixed (held_values server w path) w.drawn in
        let (step, has) = fix-IsStep fixed f.values f.added r u.looped in
        subst (λ (d : Dict Value). HasNames generators d × HasFixed fixed d) (sym u.stored)
          (HasNames-kept generators f.values r.0 step.kept (generate-HasNames generators _), has)

    after_read-present :
        (current : Option SecretRecord) (w : World server)
        → HasNames generators (values_of current)
        → HasFixed fixed (values_of current)
        → after_read server lawful path generators fixed current w ≡ (ok (values_of current, 0), w)
    after_read-present current w names has =
        let d = values_of current in
        ap
          (λ (f : Filled).
            continue (fix fixed f.values f.added, record { state = w.state; drawn = f.drawn })
              (stores server lawful path generators fixed (version_of current)))
          (generate-present generators (record { values = d; added = 0; drawn = w.drawn }) names)
        ∙ ap
            (λ (x : Result OpenBaoError (Dict Value × ℕ)).
              continue (x, w) (stores server lawful path generators fixed (version_of current)))
            (fix-present fixed d 0 has)

    pub upsert-IsConvergent :
        IsConvergent server IsSame
          (upsert server path generators fixed)
          (upsert server path generators fixed)
    unfolding upsert
    upsert-IsConvergent = record {
      safe = upsert-IsSafe server lawful path generators fixed;
      settled = again;
    }
      where
        again :
            IsSettledBy server IsSame
              (upsert server path generators fixed)
              (upsert server path generators fixed)
        again w r w1 h w' kept readable =
            let u = upsert-eq_ok server lawful path generators fixed w w1 r h in
            let (names, has) = upsert-HasFixed w w1 r u in
            let d = held_values server w' path in
            (
              (d, 0),
              ap
                    (λ (x : Result OpenBaoError (Option SecretRecord)).
                      continue (x, w') (after_read server lawful path generators fixed))
                    (readable path)
                  ∙ after_read-present (server.held w'.state path) w'
                      (HasNames-kept generators (held_values server w1 path) d (kept path) names)
                      (HasFixed-kept fixed (held_values server w1 path) d (kept path) has),
              (subst (λ (e : Dict Value). AreKept e d) u.stored (kept path), refl),
            )

  module _ {B : Type 0} (S : B → B → Type 0) where
    -- A run after one that upserts, for the values of both.
    pub after-IsConvergent :
        (m m' : Run (World server) (Dict Value × ℕ)) (k k' : Dict Value × ℕ → Run (World server) B)
        → IsConvergent server IsSame m m'
        → ((v v' : Dict Value) (c : ℕ)
            → AreKept v v'
            → IsConvergent server S (k (v, c)) (k' (v', 0)))
        → IsConvergent server S (bind m k) (bind m' k')
    after-IsConvergent m m' k k' convergent c =
        bind-IsConvergent server IsSame S m m' k k' convergent
          (λ r. (c r.0 r.0 r.1 (λ name v h. h)).safe)
          (λ r r' (kept, none_added).
            subst (λ (n : ℕ). IsSettledBy server S (k r) (k' (r'.0, n))) (sym none_added)
              (c r.0 r'.0 r.1 kept).settled)

    pub upsert-after :
        (path : String) (generators : Generators) (fixed : Dict String)
        (k k' : Dict Value × ℕ → Run (World server) B)
        → ((v v' : Dict Value) (c : ℕ)
            → AreKept v v'
            → IsConvergent server S (k (v, c)) (k' (v', 0)))
        → IsConvergent server S
            (bind (upsert server path generators fixed) k)
            (bind (upsert server path generators fixed) k')
    upsert-after path generators fixed k k' c =
        after-IsConvergent (upsert server path generators fixed)
          (upsert server path generators fixed) k k' (upsert-IsConvergent path generators fixed) c

    pub required_text-after :
        (d e : Dict Value) (name : String) (k k' : String → Run (World server) B)
        → AreKept d e
        → ((text : String) → IsConvergent server S (k text) (k' text))
        → IsConvergent server S
            (bind (lift (required_text d name)) k)
            (bind (lift (required_text e name)) k')
    required_text-after d e name k k' kept c =
        lift-IsConvergent server S (required_text d name) (required_text e name) k k'
          (λ text h. required_text-kept d e name text kept h) c

    pub result-after :
        (m m' : Run (World server) InternalResult) (k k' : InternalResult → Run (World server) B)
        → IsConvergent server ChangesNothing m m'
        → ((r : InternalResult) → IsConvergent server S (k r) (k' no_change))
        → IsConvergent server S (bind m k) (bind m' k')
    result-after m m' k k' convergent c =
        bind-IsConvergent server ChangesNothing S m m' k k' convergent (λ r. (c r).safe)
          (λ r r' none_changed.
            subst (λ (x : InternalResult). IsSettledBy server S (k r) (k' x)) (sym none_changed)
              (c r).settled)

  pub upsert_all-IsConvergent :
      (records : List (String × (Generators × Dict String))) (r : InternalResult)
      → IsConvergent server ChangesNothing
          (upsert_all server records r)
          (upsert_all server records no_change)
  unfolding upsert_all
  upsert_all-IsConvergent [] r = return-IsConvergent server ChangesNothing r no_change refl
  upsert_all-IsConvergent ((path, (generators, fixed)) ∷ rest) r =
      upsert-after ChangesNothing path generators fixed _ _
        (λ v v' c kept. upsert_all-IsConvergent rest (count_change r path c))
