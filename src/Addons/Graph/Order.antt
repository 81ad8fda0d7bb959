-- ===== src/Addons/Graph/Order.antt =====
-- addons/validation.py: `visit` accepts exactly the packages without a cycle.
use k8s_stack_tooling.Prelude.{
  ℕ, zero, suc, ◌≤◌, ◌<◌, String, true, false, none, some, List, [], ◌∷◌, ◌≡◌, ◌≢◌, ◌↔◌, refl, sym,
  subst, arith, if◌then◌else◌, ok, err, get_item, keys_of, is_some, length, Bool-cases, inl, inr,
  str_eq, eq_iff, eq_refl, All,
}
use k8s_stack_tooling.Value.{text_in}
use k8s_stack_tooling.Addons.Graph.{
  Packages, Visited, and_then, visit_all, depends_on, visit, visit_packages,
}
use k8s_stack_tooling.Addons.Graph.Fuel.{IsOrder, IsVisit, text_in-keys_of, visit_packages-IsVisit}

-- Every dependency is declared, and there is a rank that goes down along the dependencies.
pub record IsAcyclic (packages : Packages) : Type 0 where
  pub rank : String → ℕ
  pub declared :
      (name d : String)
      → is_some (get_item name packages) ≡ true
      → text_in d (depends_on packages name) ≡ true
      → is_some (get_item d packages) ≡ true
  pub falls :
      (name d : String)
      → is_some (get_item name packages) ≡ true
      → text_in d (depends_on packages name) ≡ true
      → rank d < rank name

-- How many names a list has from the last place of this one on.
place : List String → String → ℕ
place [] n = 0
place (m ∷ vs) n = if text_in n vs then place vs n else suc (length vs)

place-le : (vs : List String) (n : String) → text_in n vs ≡ true → place vs n ≤ length vs
unfolding place
place-le [] n h = cc h
place-le (m ∷ vs) n h = ground (arith, place-le vs n)

All-text_in :
    (P : String → Type 0) (names : List String) (n : String)
    → All P names
    → text_in n names ≡ true
    → P n
All-text_in P [] n a h = cc h
All-text_in P (m ∷ names) n (p, a) h = elim (Bool-cases (str_eq n m)) [
  | inl same ↦ subst P (sym ((eq_iff n m).0 same)) p
  | inr other ↦ All-text_in P names n a (ground arith)
]

module _ (packages : Packages) where
  order-declared :
      (vs : List String) (n : String)
      → IsOrder packages vs
      → text_in n vs ≡ true
      → is_some (get_item n packages) ≡ true
  order-declared [] n o h = cc h
  order-declared (m ∷ vs) n (declared, deps, o) h = elim (Bool-cases (str_eq n m)) [
    | inl same ↦
        subst (λ (x : String). is_some (get_item x packages) ≡ true) (sym ((eq_iff n m).0 same))
          declared
    | inr other ↦ order-declared vs n o (ground arith)
  ]

  order-place :
      (vs : List String) (n d : String)
      → IsOrder packages vs
      → text_in n vs ≡ true
      → text_in d (depends_on packages n) ≡ true
      → (text_in d vs ≡ true) × (place vs d < place vs n)
  unfolding place
  order-place [] n d o h k = cc h
  order-place (m ∷ vs) n d (declared, deps, o) h k = elim (Bool-cases (text_in n vs)) [
    | inl later ↦
        let (there, lower) = order-place vs n d o later k in rw (later, there) (ground arith)
    | inr first ↦
        let same : n ≡ m = ground (arith, eq_iff n m) in
        let there =
          All-text_in (λ (d : String). text_in d vs ≡ true) (depends_on packages m) d deps
            (subst (λ (x : String). text_in d (depends_on packages x) ≡ true) same k) in
        rw (first, there) (ground (arith, place-le vs d there))
  ]

  order-IsAcyclic :
      (w : List String)
      → IsOrder packages w
      → All (λ (n : String). text_in n w ≡ true) (keys_of packages)
      → IsAcyclic packages
  order-IsAcyclic w o all =
      let there : (n : String) → is_some (get_item n packages) ≡ true → text_in n w ≡ true = λ n h.
        All-text_in (λ (n : String). text_in n w ≡ true) (keys_of packages) n all
          (ground (arith, text_in-keys_of n packages)) in
      record {
        rank = place w;
        declared = λ name d h k. order-declared w d o (order-place w name d o (there name h) k).0;
        falls = λ name d h k. (order-place w name d o (there name h) k).1;
      }

  -- A call that has not raised.
  abbrev IsFine : Visited → Type 0
  IsFine (some (err e)) = ⊥
  IsFine (some (ok w)) = Unit
  IsFine none = Unit

  and_then-IsFine :
      (r : Visited) (f : List String → Visited)
      → IsFine r
      → ((w : List String) → IsFine (f w))
      → IsFine (and_then r f)
  and_then-IsFine none f h k = tt
  and_then-IsFine (some (err e)) f h k = h
  and_then-IsFine (some (ok w)) f h k = k w

  visit_all-IsFine :
      (go : List String → String → Visited) (visited names : List String)
      → ((n : String) → text_in n names ≡ true → (v : List String) → IsFine (go v n))
      → IsFine (visit_all go visited names)
  visit_all-IsFine go visited [] h = tt
  visit_all-IsFine go visited (n ∷ names) h =
      and_then-IsFine (go visited n) (λ w. visit_all go w names)
        (h n (ground (arith, eq_refl n)) visited)
        (λ w. visit_all-IsFine go w names (λ q k. h q (ground arith)))

  module _ (a : IsAcyclic packages) where
    -- A name of lower rank is not open.
    not_open :
        (name : String) (visiting : List String)
        → All (λ (v : String). a.rank name < a.rank v) visiting
        → text_in name visiting ≡ false
    not_open name [] h = refl
    not_open name (v ∷ visiting) (lt, h) = elim (Bool-cases (str_eq name v)) [
      | inl same ↦
          let e = (eq_iff name v).0 same in
          absurd (omega (arith, subst (λ (x : String). a.rank x < a.rank v) e lt))
      | inr other ↦ ground (arith, not_open name visiting h)
    ]

    lower :
        (d name : String) (visiting : List String)
        → a.rank d < a.rank name
        → All (λ (v : String). a.rank name < a.rank v) visiting
        → All (λ (v : String). a.rank d < a.rank v) visiting
    lower d name [] lt h = tt
    lower d name (v ∷ visiting) lt (l, h) = (omega (arith, l, lt), lower d name visiting lt h)

    visit-IsFine :
        (fuel : ℕ) (visiting visited : List String) (name : String)
        → is_some (get_item name packages) ≡ true
        → All (λ (v : String). a.rank name < a.rank v) visiting
        → IsFine (visit packages fuel visiting visited name)
    unfolding visit
    visit-IsFine zero visiting visited name declared above = tt
    visit-IsFine (suc fuel) visiting visited name declared above =
        elim (Bool-cases (text_in name visited)) [
          | inl old ↦ rw (declared, not_open name visiting above, old) tt
          | inr new ↦
              rw (declared, not_open name visiting above, new)
                (and_then-IsFine _ (λ v. some (ok (name ∷ v)))
                  (visit_all-IsFine (visit packages fuel (name ∷ visiting)) visited
                    (depends_on packages name)
                    (λ d k v.
                      visit-IsFine fuel (name ∷ visiting) v d (a.declared name d declared k) (
                        a.falls name d declared k,
                        lower d name visiting (a.falls name d declared k) above,
                      )))
                  (λ w. tt))
        ]

  visit_packages-IsFine : IsAcyclic packages → IsFine (visit_packages packages)
  unfolding visit_packages
  visit_packages-IsFine a =
      visit_all-IsFine (visit packages (suc (length packages)) []) [] (keys_of packages) (λ n k v.
        visit-IsFine a (suc (length packages)) [] v n (ground (arith, text_in-keys_of n packages))
          tt)

  accepts :
      (r : Visited)
      → IsVisit packages [] (keys_of packages) r
      → IsFine r
      → (w : List String) × (r ≡ some (ok w))
  accepts none v f = absurd v
  accepts (some (err e)) v f = absurd f
  accepts (some (ok w)) v f = (w, refl)

  place_bound : (vs : List String) (n : String) → place vs n ≤ length vs
  unfolding place
  place_bound [] n = omega arith
  place_bound (m ∷ vs) n = ground (arith, place_bound vs n)

  -- The ranks of packages that are accepted go up to their number.
  pub accepted-IsAcyclic :
      (w : List String)
      → visit_packages packages ≡ some (ok w)
      → (a : IsAcyclic packages) × ((n : String) → a.rank n ≤ length w)
  unfolding order-IsAcyclic
  accepted-IsAcyclic w e =
      let (o, kept, all) =
        subst (IsVisit packages [] (keys_of packages)) e (visit_packages-IsVisit packages) in
      (order-IsAcyclic w o all, place_bound w)

  -- The dependencies are visited to the end, and this is accepted exactly if every dependency is a
  -- package and none depends on itself, at once or through others.
  pub visit_packages_iff :
      (visit_packages packages ≢ none)
      × (((w : List String) × (visit_packages packages ≡ some (ok w))) ↔ IsAcyclic packages)
  visit_packages_iff = (
    λ e. subst (IsVisit packages [] (keys_of packages)) e (visit_packages-IsVisit packages),
    (
      λ (w, e). (accepted-IsAcyclic w e).0,
      λ a.
          accepts (visit_packages packages) (visit_packages-IsVisit packages)
            (visit_packages-IsFine a),
    ),
  )
