-- ===== src/OpenBao/Credentials/Good.antt =====
-- credentials.py: the texts that the tests of ContextForge and GlitchTip accept.
use k8s_stack_tooling.Prelude.{
  ℕ, String, Bool, false, some, List, [], ◌∷◌, ◌≡◌, inl, inr, refl, sym, ◌∙◌, ap, subst,
  if◌then◌else◌, str_eq, ok, >>=-eq_ok, ok_injective, guard-eq_ok, Dict, get_item, is_some,
  Option-cases, All,
}
use k8s_stack_tooling.Value.{Value, str}
use k8s_stack_tooling.OpenBao.Kv.Kept.{AreKept}
use k8s_stack_tooling.OpenBao.Upsert.{required_text}
use k8s_stack_tooling.OpenBao.Upsert.Again.{required-eq_ok}
use k8s_stack_tooling.OpenBao.Upsert.Steps.{HasNames}
use k8s_stack_tooling.OpenBao.Upsert.Additions.{OnlyAdds}
use k8s_stack_tooling.OpenBao.Credentials.{
  Texts, random_fields, is_broken, is_unprintable, random_secret, checked_text, check_present,
}

-- The texts of `secrets` are not empty, are not only spaces, and have no control characters.
pub record IsRandom (texts : Texts) : Type 0 where
  pub nonempty : (n : ℕ) → str_eq (random_secret texts n) "" ≡ false
  pub unbroken : (n : ℕ) → is_broken texts (random_secret texts n) ≡ false
  pub printable : (n : ℕ) → is_unprintable texts (random_secret texts n) ≡ false

-- A text that the test accepts.
abbrev pub IsGood : (String → Bool) → String → Type 0
IsGood is_bad s = (str_eq s "" ≡ false) × (is_bad s ≡ false)

module _ (is_bad : String → Bool) where
  pub checked_text-eq_ok :
      (d : Dict Value) (name s : String)
      → checked_text is_bad d name ≡ ok s
      → (get_item name d ≡ some (str s)) × IsGood is_bad s
  unfolding required_text
  checked_text-eq_ok d name s h =
      let (t, one, two) = >>=-eq_ok (required_text d name) _ h in
      let (there, filled) = required-eq_ok (get_item name d) t one in
      let (fine, same) = guard-eq_ok (is_bad t) _ (ok t) two in
      let e : t ≡ s = ok_injective same in
      subst (λ (x : String). (get_item name d ≡ some (str x)) × IsGood is_bad x) e
        (there, (filled, fine))

  pub checked_text-good :
      (d : Dict Value) (name s : String)
      → get_item name d ≡ some (str s)
      → IsGood is_bad s
      → checked_text is_bad d name ≡ ok s
  unfolding required_text
  checked_text-good d name s there (filled, fine) = rw there (rw filled (rw fine refl))

  -- The text under the name, if there is one, is good.
  abbrev pub IsGoodIn : Dict Value → String → Type 0
  IsGoodIn d name =
      (v : Value) → get_item name d ≡ some v → (s : String) × (v ≡ str s) × IsGood is_bad s

  -- What is good before stays so, if all that is added under these names is good.
  pub check_present-IsGoodIn :
      (P : String → String → Type 0) (d e : Dict Value) (names : List String)
      → OnlyAdds P d e
      → All (λ (name : String). (s : String) → P name s → IsGood is_bad s) names
      → check_present is_bad d names ≡ ok tt
      → All (IsGoodIn e) names
  unfolding check_present
  check_present-IsGoodIn P d e [] only good h = tt
  check_present-IsGoodIn P d e (name ∷ names) only (good, goods) h =
      let (t, one, two) =
        >>=-eq_ok (if is_some (get_item name d) then checked_text is_bad d name else ok "") _ h in
      (
        λ v there. elim (only name v there) [
          | inr (s, same, p) ↦ (s, same, good s p)
          | inl before ↦
              let (found, fine) = checked_text-eq_ok d name t (rw (ap is_some before) at one) in
              (t, cc (sym before ∙ found), fine)
        ],
        check_present-IsGoodIn P d e names only goods two,
      )

  -- Good values pass when they are looked at again.
  pub check_present-again :
      (texts : Texts) (d e : Dict Value) (names : List String)
      → HasNames (random_fields texts names) d
      → AreKept d e
      → All (IsGoodIn d) names
      → check_present is_bad e names ≡ ok tt
  unfolding check_present
  check_present-again texts d e [] has kept good = refl
  check_present-again texts d e (name ∷ names) (one, has) kept (good, goods) =
      elim (Option-cases (get_item name d)) [
        | inl missing ↦ cc (sym (ap is_some missing) ∙ one)
        | inr (v, there) ↦
            let (s, same, fine) = good v there in
            let found : get_item name e ≡ some (str s) = kept name v there ∙ ap some same in
            rw (checked_text-good e name s found fine)
              (rw (ap is_some found) (check_present-again texts d e names has kept goods))
      ]
