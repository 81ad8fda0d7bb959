-- ===== src/Addons/Graph/Ancestors.antt =====
-- addons/validation.py: `ancestors` ends where `visit` accepts, and finds what a package requires.
use k8s_stack_tooling.Prelude.{
  ℕ, zero, suc, ◌<◌, String, true, Option, none, some, List, [], ◌∷◌, ◌++◌, ◌≡◌, ◌↔◌, refl, sym,
  subst, arith, ◌||◌, ok, err, get_item, is_some, length, Bool-cases, Option-cases, inl, inr,
  str_eq, eq_iff, eq_refl,
}
use k8s_stack_tooling.Value.{text_in}
use k8s_stack_tooling.Addons.Graph.{
  Packages, Visited, and_then, depends_on, visit_packages, with_ancestors, ancestors_all,
  ancestors_of, ancestors,
}
use k8s_stack_tooling.Addons.Graph.Order.{IsAcyclic, accepted-IsAcyclic}

-- What a package depends on, at once or through others.
pub data Requires (packages : Packages) : String → String → Type 0 where
  directly : {n d : String} → text_in d (depends_on packages n) ≡ true → Requires packages n d
  through :
      {n d p : String}
      → text_in d (depends_on packages n) ≡ true
      → Requires packages d p
      → Requires packages n p

text_in-append :
    (q : String) (xs ys : List String) → text_in q (xs ++ ys) ≡ (text_in q xs || text_in q ys)
text_in-append q [] ys = refl
text_in-append q (x ∷ xs) ys = ground (arith, text_in-append q xs ys)

module _ (packages : Packages) where
  -- These are all that the package requires.
  abbrev pub AreAncestors : String → Visited → Type 0
  AreAncestors name none = ⊥
  AreAncestors name (some (err e)) = ⊥
  AreAncestors name (some (ok l)) = (p : String) → (text_in p l ≡ true) ↔ Requires packages name p

  -- Of one of these packages.
  abbrev RequiredBy : List String → String → Type 0
  RequiredBy names p = (d : String) × (text_in d names ≡ true) × Requires packages d p

  abbrev AreAncestorsOf : List String → Visited → Type 0
  AreAncestorsOf names none = ⊥
  AreAncestorsOf names (some (err e)) = ⊥
  AreAncestorsOf names (some (ok l)) = (p : String) → (text_in p l ≡ true) ↔ RequiredBy names p

  both :
      (n : String) (names own more : List String)
      → ((p : String) → (text_in p own ≡ true) ↔ Requires packages n p)
      → ((p : String) → (text_in p more ≡ true) ↔ RequiredBy names p)
      → (p : String) → (text_in p (own ++ more) ≡ true) ↔ RequiredBy (n ∷ names) p
  both n names own more a b p = (
    λ h. elim (Bool-cases (text_in p own)) [
      | inl here ↦ (n, ground (arith, eq_refl n), (a p).0 here)
      | inr other ↦
          let (d, k, r) = (b p).0 (ground (arith, text_in-append p own more)) in
          (d, ground arith, r)
    ],
    λ (d, k, r). elim (Bool-cases (str_eq d n)) [
      | inl same ↦
          let mine =
            (a p).1 (subst (λ (x : String). Requires packages x p) ((eq_iff d n).0 same) r) in
          ground (arith, text_in-append p own more)
      | inr other ↦
          let its = (b p).1 (d, ground arith, r) in ground (arith, text_in-append p own more)
    ],
  )

  join :
      (n : String) (names : List String) (r s : Visited)
      → AreAncestors n r
      → AreAncestorsOf names s
      → AreAncestorsOf (n ∷ names) (and_then r (λ own. with_ancestors packages own s))
  join n names none s a b = absurd a
  join n names (some (err e)) s a b = absurd a
  join n names (some (ok own)) none a b = absurd b
  join n names (some (ok own)) (some (err e)) a b = absurd b
  join n names (some (ok own)) (some (ok more)) a b = both n names own more a b

  ancestors_all-AreAncestorsOf :
      (go : String → Visited) (names : List String)
      → ((n : String) → text_in n names ≡ true → AreAncestors n (go n))
      → AreAncestorsOf names (ancestors_all packages go names)
  ancestors_all-AreAncestorsOf go [] h = λ p. (λ e. cc e, λ (d, k, r). cc k)
  ancestors_all-AreAncestorsOf go (n ∷ names) h =
      join n names (go n) (ancestors_all packages go names) (h n (ground (arith, eq_refl n)))
        (ancestors_all-AreAncestorsOf go names (λ q k. h q (ground arith)))

  add_direct :
      (n : String) (r : Visited)
      → AreAncestorsOf (depends_on packages n) r
      → AreAncestors n (with_ancestors packages (depends_on packages n) r)
  add_direct n none a = a
  add_direct n (some (err e)) a = a
  add_direct n (some (ok l)) a = λ p. (
    λ h. elim (Bool-cases (text_in p (depends_on packages n))) [
      | inl here ↦ directly here
      | inr other ↦
          let (d, k, r) = (a p).0 (ground (arith, text_in-append p (depends_on packages n) l)) in
          through k r
    ],
    λ r. back p r,
  )
    where
      back : (p : String) → Requires packages n p → text_in p (depends_on packages n ++ l) ≡ true
      back p (directly k) = ground (arith, text_in-append p (depends_on packages n) l)
      back p (through {d = d} k r) =
          let its = (a p).1 (d, k, r) in ground (arith, text_in-append p (depends_on packages n) l)

  declared-depends_on :
      (name : String)
      → is_some (get_item name packages) ≡ true
      → get_item name packages ≡ some (depends_on packages name)
  declared-depends_on name h = elim (Option-cases (get_item name packages)) [
    | inl missing ↦ cc (rw missing at h)
    | inr (names, e) ↦ rw e refl
  ]

  ancestors-AreAncestors :
      (a : IsAcyclic packages) (fuel : ℕ) (name : String)
      → is_some (get_item name packages) ≡ true
      → a.rank name < fuel
      → AreAncestors name (ancestors packages fuel name)
  unfolding ancestors
  ancestors-AreAncestors a zero name declared lt = absurd (omega arith)
  ancestors-AreAncestors a (suc fuel) name declared lt =
      subst
        (λ (o : Option (List String)).
          AreAncestors name (ancestors_of packages (ancestors packages fuel) o))
        (sym (declared-depends_on name declared))
        (add_direct name
          (ancestors_all packages (ancestors packages fuel) (depends_on packages name))
          (ancestors_all-AreAncestorsOf (ancestors packages fuel) (depends_on packages name) (λ d k.
            ancestors-AreAncestors a fuel d (a.declared name d declared k)
              (omega (arith, a.falls name d declared k, lt)))))

-- If `visit` accepts the packages, `ancestors` ends for each of them within as many rounds as there
-- are names visited and one more, and returns exactly those that it requires, at once or through
-- others.
pub ancestors_end :
    (packages : Packages) (w : List String) (name : String)
    → visit_packages packages ≡ some (ok w)
    → is_some (get_item name packages) ≡ true
    → AreAncestors packages name (ancestors packages (suc (length w)) name)
ancestors_end packages w name accepted declared =
    let (a, bound) = accepted-IsAcyclic packages w accepted in
    ancestors-AreAncestors packages a (suc (length w)) name declared (omega (arith, bound name))
