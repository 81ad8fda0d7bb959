-- ===== src/Addons/Graph/Fuel.antt =====
-- addons/validation.py: `visit` ends, and leaves a topological order.
use k8s_stack_tooling.Prelude.{
  ℕ, zero, suc, ◌≤◌, ◌<◌, String, true, false, none, some, List, [], ◌∷◌, ◌≡◌, refl, arith, ◌||◌,
  if◌then◌else◌, not, ok, err, get_item, keys_of, is_some, length, Bool-cases, inl, inr, eq_iff,
  eq_refl, All,
}
use k8s_stack_tooling.Value.{text_in}
use k8s_stack_tooling.Addons.Graph.{
  Packages, Visited, and_then, visit_all, leave, depends_on, visit, visit_packages,
}

-- How many of the names are not open.
pub count_closed : List String → List String → ℕ
count_closed visiting [] = 0
count_closed visiting (name ∷ names) =
    if text_in name visiting then count_closed visiting names else suc (count_closed visiting names)

count_closed-le :
    (name : String) (visiting names : List String)
    → count_closed (name ∷ visiting) names ≤ count_closed visiting names
unfolding count_closed
count_closed-le name visiting [] = omega arith
count_closed-le name visiting (n ∷ names) = ground (arith, count_closed-le name visiting names)

-- One that is opened.
count_closed-lt :
    (name : String) (visiting names : List String)
    → text_in name names ≡ true
    → text_in name visiting ≡ false
    → count_closed (name ∷ visiting) names < count_closed visiting names
unfolding count_closed
count_closed-lt name visiting [] h c = cc h
count_closed-lt name visiting (n ∷ names) h c = ground (
  arith,
  count_closed-lt name visiting names,
  count_closed-le name visiting names,
  eq_iff name n,
  eq_iff n name,
)

pub text_in-keys_of :
    (name : String) (packages : Packages)
    → is_some (get_item name packages) ≡ text_in name (keys_of packages)
text_in-keys_of name [] = refl
text_in-keys_of name ((n, ds) ∷ packages) =
    ground (arith, text_in-keys_of name packages, eq_iff n name, eq_iff name n)

-- A topological order, the last package first: each is declared, and those that it depends on come
-- after it in the list.
abbrev pub IsOrder : Packages → List String → Type 0
IsOrder packages [] = Unit
IsOrder packages (name ∷ names) =
    (is_some (get_item name packages) ≡ true)
    × All (λ (d : String). text_in d names ≡ true) (depends_on packages name)
    × IsOrder packages names

module _ (packages : Packages) where
  -- A call ends; if it returns, the names visited are in order, none is lost, and these are there.
  abbrev pub IsVisit : List String → List String → Visited → Type 0
  IsVisit visited names none = ⊥
  IsVisit visited names (some (err e)) = Unit
  IsVisit visited names (some (ok w)) =
      IsOrder packages w
      × ((q : String) → text_in q visited ≡ true → text_in q w ≡ true)
      × All (λ (n : String). text_in n w ≡ true) names

  after-IsVisit :
      (visited w : List String) (name : String) (names : List String) (r : Visited)
      → ((q : String) → text_in q visited ≡ true → text_in q w ≡ true)
      → text_in name w ≡ true
      → IsVisit w names r
      → IsVisit visited (name ∷ names) r
  after-IsVisit visited w name names none kept there v = v
  after-IsVisit visited w name names (some (err e)) kept there v = tt
  after-IsVisit visited w name names (some (ok x)) kept there (order, more, all) =
      (order, λ q h. more q (kept q h), (more name there, all))

  and_then-IsVisit :
      (visited : List String) (name : String) (names : List String) (r : Visited)
      (f : List String → Visited)
      → IsVisit visited (name ∷ []) r
      → ((w : List String) → IsOrder packages w → IsVisit w names (f w))
      → IsVisit visited (name ∷ names) (and_then r f)
  and_then-IsVisit visited name names none f v next = v
  and_then-IsVisit visited name names (some (err e)) f v next = tt
  and_then-IsVisit visited name names (some (ok w)) f (order, kept, (there, u)) next =
      after-IsVisit visited w name names (f w) kept there (next w order)

  visit_all-IsVisit :
      (go : List String → String → Visited)
      → ((visited : List String) (name : String)
          → IsOrder packages visited
          → IsVisit visited (name ∷ []) (go visited name))
      → (visited names : List String) → IsOrder packages visited
      → IsVisit visited names (visit_all go visited names)
  visit_all-IsVisit go h visited [] o = (o, λ q e. e, tt)
  visit_all-IsVisit go h visited (name ∷ names) o =
      and_then-IsVisit visited name names (go visited name) (λ w. visit_all go w names)
        (h visited name o) (λ w order. visit_all-IsVisit go h w names order)

  leave-IsVisit :
      (visited : List String) (name : String) (r : Visited)
      → is_some (get_item name packages) ≡ true
      → IsVisit visited (depends_on packages name) r
      → IsVisit visited (name ∷ []) (leave name r)
  leave-IsVisit visited name none declared v = v
  leave-IsVisit visited name (some (err e)) declared v = tt
  leave-IsVisit visited name (some (ok w)) declared (order, kept, all) =
      ((declared, all, order), λ q h. ground (arith, kept q h), (ground (arith, eq_refl name), tt))

  pub visit-IsVisit :
      (fuel : ℕ) (visiting visited : List String) (name : String)
      → count_closed visiting (keys_of packages) < fuel
      → IsOrder packages visited
      → IsVisit visited (name ∷ []) (visit packages fuel visiting visited name)
  unfolding visit
  visit-IsVisit zero visiting visited name lt o = absurd (omega arith)
  visit-IsVisit (suc fuel) visiting visited name lt o =
      elim (Bool-cases (not (is_some (get_item name packages)) || text_in name visiting)) [
        | inl bad ↦ rw bad tt
        | inr good ↦ elim (Bool-cases (text_in name visited)) [
          | inl old ↦ rw (good, old) (o, λ q e. e, (old, tt))
          | inr new ↦
              let fewer =
                count_closed-lt name visiting (keys_of packages)
                  (ground (arith, text_in-keys_of name packages)) (ground arith) in
              rw (good, new)
                (leave-IsVisit visited name _ (ground arith) (
                  visit_all-IsVisit (visit packages fuel (name ∷ visiting))
                    (λ v n order.
                      visit-IsVisit fuel (name ∷ visiting) v n (omega (arith, fewer)) order)
                    visited (depends_on packages name) o))
        ]
      ]

  pub count_closed-nil :
      (names : List String) (d : Packages) → names ≡ keys_of d → count_closed [] names ≤ length d
  unfolding count_closed
  count_closed-nil [] d e = omega arith
  count_closed-nil (n ∷ names) [] e = cc e
  count_closed-nil (n ∷ names) ((k, ds) ∷ d) e =
      let same : names ≡ keys_of d = cc e in omega (arith, count_closed-nil names d same)

  -- visit ends for every package; if no call raises, every package is there, in a topological order.
  pub visit_packages-IsVisit : IsVisit [] (keys_of packages) (visit_packages packages)
  unfolding visit_packages
  visit_packages-IsVisit =
      visit_all-IsVisit (visit packages (suc (length packages)) [])
        (λ v n order.
          visit-IsVisit (suc (length packages)) [] v n
            (omega (arith, count_closed-nil (keys_of packages) packages refl)) order)
        [] (keys_of packages) tt
