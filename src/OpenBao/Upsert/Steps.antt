-- ===== src/OpenBao/Upsert/Steps.antt =====
-- credentials.py: what the two loops of `_upsert` do to the values of a record.
use k8s_stack_tooling.Prelude.{
  ℕ, suc, ◌≤◌, String, Bool, true, false, Option, none, some, [], ◌∷◌, ◌≡◌, inl, inr, refl, sym,
  ◌∙◌, ap, subst, arith, not, str_eq, eq_iff, eq_refl, ok, >>=-eq_ok, ok_injective, guard-eq_ok,
  Bool-cases, Option-cases, Dict, get_item, set_item, get_item-set_item, is_some,
}
use k8s_stack_tooling.Value.{Value, str}
use k8s_stack_tooling.OpenBao.Kv.Kept.{AreKept, AreKept-trans}
use k8s_stack_tooling.OpenBao.Upsert.{
  Generators, Filled, generate_one, generate, has_value, fix_one, fix,
}

-- Values are only added, and each that is added is counted.
pub record IsStep (d : Dict Value) (n : ℕ) (e : Dict Value) (k : ℕ) : Type 0 where
  pub kept : AreKept d e
  pub counted : n ≤ k
  pub same : k ≡ n → e ≡ d

IsStep-refl : (d : Dict Value) (n : ℕ) → IsStep d n d n
IsStep-refl d n = record { kept = λ name v h. h; counted = omega (arith); same = λ h. refl }

pub IsStep-trans :
    (c d e : Dict Value) (i j k : ℕ) → IsStep c i d j → IsStep d j e k → IsStep c i e k
IsStep-trans c d e i j k a b = record {
  kept = AreKept-trans c d e a.kept b.kept;
  counted = omega (arith, a.counted, b.counted);
  same = λ h.
      b.same (omega (arith, h, a.counted, b.counted))
      ∙ a.same (omega (arith, h, a.counted, b.counted));
}

set_item-IsStep :
    (name : String) (v : Value) (d : Dict Value) (n : ℕ)
    → is_some (get_item name d) ≡ false
    → IsStep d n (set_item name v d) (suc n)
set_item-IsStep name v d n new = record {
  kept = λ other w h. get_item-set_item name other v d ∙ elim (Bool-cases (str_eq name other)) [
    | inr different ↦ rw different h
    | inl same ↦ absurd (
        missing
          (subst (λ (n : String). get_item n d ≡ some w) (sym ((eq_iff name other).0 same)) h))
  ];
  counted = omega (arith);
  same = λ h. absurd (omega (arith, h));
}
  where
    missing : {w : Value} → get_item name d ≡ some w → ⊥
    missing {w} h =
        let there : is_some (get_item name d) ≡ true = ap is_some h in cc (sym there ∙ new)

generate_one-IsStep :
    (name : String) (generator : ℕ → String) (f : Filled)
    → IsStep f.values f.added
        (generate_one name generator f).values
        (generate_one name generator f).added
generate_one-IsStep name generator f = elim (Bool-cases (is_some (get_item name f.values))) [
  | inl there ↦ rw there (IsStep-refl f.values f.added)
  | inr new ↦ rw new (set_item-IsStep name (str (generator f.drawn)) f.values f.added new)
]

pub generate-IsStep :
    (generators : Generators) (f : Filled)
    → IsStep f.values f.added (generate generators f).values (generate generators f).added
unfolding generate
generate-IsStep [] f = IsStep-refl f.values f.added
generate-IsStep ((name, generator) ∷ rest) f =
    let g = generate_one name generator f in
    IsStep-trans f.values g.values (generate rest g).values f.added g.added (generate rest g).added
      (generate_one-IsStep name generator f) (generate-IsStep rest g)

-- A step after which the name has its value.
abbrev IsFixed : String → String → Dict Value → ℕ → Dict Value × ℕ → Type 0
IsFixed name t d n r = IsStep d n r.0 r.1 × (get_item name r.0 ≡ some (str t))

fix_one-IsStep :
    (name t : String) (d : Dict Value) (n : ℕ) (r : Dict Value × ℕ)
    → fix_one name t d n ≡ ok r
    → IsFixed name t d n r
fix_one-IsStep name t d n r h = elim (Bool-cases (is_some (get_item name d))) [
  | inl there ↦
      let (equal, h1) = guard-eq_ok (not (has_value t (get_item name d))) _ _ (rw there at h) in
      subst (IsFixed name t d n) (ok_injective h1)
        (IsStep-refl d n, has_value-eq (get_item name d) equal)
  | inr new ↦
      let r_eq : (set_item name (str t) d, suc n) ≡ r = ok_injective (rw new at h) in
      subst (IsFixed name t d n) r_eq (
        set_item-IsStep name (str t) d n new,
        get_item-set_item name name (str t) d ∙ rw (eq_refl name) refl,
      )
]
  where
    is_true : (b : Bool) → not b ≡ false → b ≡ true
    is_true true h = refl
    is_true false h = cc h

    has_value-eq : (o : Option Value) → not (has_value t o) ≡ false → o ≡ some (str t)
    has_value-eq none h = cc h
    has_value-eq (some (str s)) h =
        ap (λ (x : String). some (str x)) ((eq_iff s t).0 (is_true (str_eq s t) h))
    has_value-eq (some _) h = cc h

-- What a loop over `fixed` that does not raise leaves: each name has its value.
abbrev pub HasFixed : Dict String → Dict Value → Type 0
HasFixed [] d = Unit
HasFixed ((name, t) ∷ rest) d = (get_item name d ≡ some (str t)) × HasFixed rest d

pub fix-IsStep :
    (fixed : Dict String) (d : Dict Value) (n : ℕ) (r : Dict Value × ℕ)
    → fix fixed d n ≡ ok r
    → IsStep d n r.0 r.1 × HasFixed fixed r.0
unfolding fix
fix-IsStep [] d n r h =
    subst (λ (x : Dict Value × ℕ). IsStep d n x.0 x.1 × Unit {0}) (ok_injective h)
      (IsStep-refl d n, tt)
fix-IsStep ((name, t) ∷ rest) d n r h =
    let (s, one, more) = >>=-eq_ok (fix_one name t d n) _ h in
    let (step, has) = fix_one-IsStep name t d n s one in
    let (steps, others) = fix-IsStep rest s.0 s.1 r more in
    (IsStep-trans d s.0 r.0 n s.1 r.1 step steps, (steps.kept name (str t) has, others))

abbrev pub HasNames : Generators → Dict Value → Type 0
HasNames [] d = Unit
HasNames ((name, generator) ∷ rest) d = (is_some (get_item name d) ≡ true) × HasNames rest d

pub is_some-kept :
    (name : String) (d e : Dict Value)
    → AreKept d e
    → is_some (get_item name d) ≡ true
    → is_some (get_item name e) ≡ true
is_some-kept name d e kept h = elim (Option-cases (get_item name d)) [
  | inl missing ↦ cc (sym (ap is_some missing) ∙ h)
  | inr (v, there) ↦ ap is_some (kept name v there)
]

pub HasNames-kept :
    (generators : Generators) (d e : Dict Value)
    → AreKept d e
    → HasNames generators d
    → HasNames generators e
HasNames-kept [] d e kept has = tt
HasNames-kept ((name, generator) ∷ rest) d e kept (one, has) =
    (is_some-kept name d e kept one, HasNames-kept rest d e kept has)

pub HasFixed-kept :
    (fixed : Dict String) (d e : Dict Value) → AreKept d e → HasFixed fixed d → HasFixed fixed e
HasFixed-kept [] d e kept has = tt
HasFixed-kept ((name, t) ∷ rest) d e kept (one, has) =
    (kept name (str t) one, HasFixed-kept rest d e kept has)

pub generate-HasNames :
    (generators : Generators) (f : Filled) → HasNames generators (generate generators f).values
unfolding generate
generate-HasNames [] f = tt
generate-HasNames ((name, generator) ∷ rest) f =
    let g = generate_one name generator f in
    (
      is_some-kept name g.values (generate rest g).values (generate-IsStep rest g).kept there,
      generate-HasNames rest g,
    )
  where
    there : is_some (get_item name (generate_one name generator f).values) ≡ true
    there = elim (Bool-cases (is_some (get_item name f.values))) [
      | inl h ↦ rw h h
      | inr new ↦ rw new (
          rw (get_item-set_item name name (str (generator f.drawn)) f.values)
            (rw (eq_refl name) refl))
    ]

-- Nothing is generated where all names are there.
pub generate-present :
    (generators : Generators) (f : Filled)
    → HasNames generators f.values
    → generate generators f ≡ f
unfolding generate
generate-present [] f has = refl
generate-present ((name, generator) ∷ rest) f (one, has) = rw one (generate-present rest f has)

pub fix-present :
    (fixed : Dict String) (d : Dict Value) (n : ℕ) → HasFixed fixed d → fix fixed d n ≡ ok (d, n)
unfolding fix
fix-present [] d n has = refl
fix-present ((name, t) ∷ rest) d n (one, has) = rw one (rw (eq_refl t) (fix-present rest d n has))
