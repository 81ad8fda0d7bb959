-- ===== src/OpenBao/Upsert/Additions.antt =====
-- credentials.py: which values `_upsert` adds.
use k8s_stack_tooling.Prelude.{
  ℕ, suc, String, some, [], ◌∷◌, ◌≡◌, ◌⊎◌, inl, inr, sym, ◌∙◌, subst, not, str_eq, eq_iff, ok,
  >>=-eq_ok, ok_injective, guard-eq_ok, Bool-cases, Dict, get_item, set_item, get_item-set_item,
  is_some, All,
}
use k8s_stack_tooling.Value.{Value, str}
use k8s_stack_tooling.OpenBao.Upsert.{
  Generators, Filled, generate_one, generate, has_value, fix_one, fix,
}

module _ (P : String → String → Type 0) where
  -- What is there was there before, or is a text for which `P` holds.
  abbrev pub OnlyAdds : Dict Value → Dict Value → Type 0
  OnlyAdds d e =
      (name : String) (v : Value)
      → get_item name e ≡ some v
      → (get_item name d ≡ some v) ⊎ ((s : String) × (v ≡ str s) × P name s)

  pub OnlyAdds-trans : (c d e : Dict Value) → OnlyAdds c d → OnlyAdds d e → OnlyAdds c e
  OnlyAdds-trans c d e h k name v q = elim (k name v q) [
    | inl before ↦ h name v before
    | inr added ↦ inr added
  ]

  set_item-OnlyAdds :
      (name s : String) (d : Dict Value) → P name s → OnlyAdds d (set_item name (str s) d)
  set_item-OnlyAdds name s d p other v q = elim (Bool-cases (str_eq name other)) [
    | inr different ↦ inl (rw different at (sym (get_item-set_item name other (str s) d) ∙ q))
    | inl same ↦
        let e : name ≡ other = (eq_iff name other).0 same in
        let found : some (str s) ≡ some v =
          rw same at (sym (get_item-set_item name other (str s) d) ∙ q) in
        inr (s, cc found, subst (λ (n : String). P n s) e p)
  ]

  generate_one-OnlyAdds :
      (name : String) (generator : ℕ → String) (f : Filled)
      → ((n : ℕ) → P name (generator n))
      → OnlyAdds f.values (generate_one name generator f).values
  generate_one-OnlyAdds name generator f p = elim (Bool-cases (is_some (get_item name f.values))) [
    | inl there ↦ rw there (λ other v q. inl q)
    | inr new ↦ rw new (set_item-OnlyAdds name (generator f.drawn) f.values (p f.drawn))
  ]

  pub generate-OnlyAdds :
      (generators : Generators) (f : Filled)
      → All (λ (g : String × (ℕ → String)). (n : ℕ) → P g.0 (g.1 n)) generators
      → OnlyAdds f.values (generate generators f).values
  unfolding generate
  generate-OnlyAdds [] f p = λ other v q. inl q
  generate-OnlyAdds ((name, generator) ∷ rest) f (p, ps) =
      let g = generate_one name generator f in
      OnlyAdds-trans f.values g.values (generate rest g).values
        (generate_one-OnlyAdds name generator f p) (generate-OnlyAdds rest g ps)

  fix_one-OnlyAdds :
      (name t : String) (d : Dict Value) (n : ℕ) (r : Dict Value × ℕ)
      → P name t
      → fix_one name t d n ≡ ok r
      → OnlyAdds d r.0
  fix_one-OnlyAdds name t d n r p h = elim (Bool-cases (is_some (get_item name d))) [
    | inl there ↦
        let (equal, h1) = guard-eq_ok (not (has_value t (get_item name d))) _ _ (rw there at h) in
        subst (λ (x : Dict Value × ℕ). OnlyAdds d x.0) (ok_injective h1) (λ other v q. inl q)
    | inr new ↦
        let r_eq : (set_item name (str t) d, suc n) ≡ r = ok_injective (rw new at h) in
        subst (λ (x : Dict Value × ℕ). OnlyAdds d x.0) r_eq (set_item-OnlyAdds name t d p)
  ]

  pub fix-OnlyAdds :
      (fixed : Dict String) (d : Dict Value) (n : ℕ) (r : Dict Value × ℕ)
      → All (λ (x : String × String). P x.0 x.1) fixed
      → fix fixed d n ≡ ok r
      → OnlyAdds d r.0
  unfolding fix
  fix-OnlyAdds [] d n r p h =
      subst (λ (x : Dict Value × ℕ). OnlyAdds d x.0) (ok_injective h) (λ other v q. inl q)
  fix-OnlyAdds ((name, t) ∷ rest) d n r (p, ps) h =
      let (s, one, more) = >>=-eq_ok (fix_one name t d n) _ h in
      OnlyAdds-trans d s.0 r.0 (fix_one-OnlyAdds name t d n s p one)
        (fix-OnlyAdds rest s.0 s.1 r ps more)
