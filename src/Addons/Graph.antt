-- ===== src/Addons/Graph.antt =====
-- addons/validation.py: the dependencies of packages in `check`, its `visit` and its `ancestors`.
pub mod Fuel
pub mod Order
pub mod Ancestors
use k8s_stack_tooling.Prelude.{
  ℕ, zero, suc, String, Bool, true, false, Option, none, some, List, [], ◌∷◌, ◌++◌, ◌||◌,
  if◌then◌else◌, Result, ok, err, Dict, get_item, keys_of, is_some, not, length,
}
use k8s_stack_tooling.Value.{text_in}

-- ContractError, by what it reports, and a KeyError of `ancestors`.
pub data GraphError : Type 0 where
  missing_or_cyclic no_package : GraphError

-- `depends_on` of each package
abbrev pub Packages : Type 0
Packages = Dict (List String)

-- The end of a call of `visit` with the names visited, the last first; `none` means that the fuel ran
-- out.
abbrev pub Visited : Type 0
Visited = Option (Result GraphError (List String))

abbrev pub and_then : Visited → (List String → Visited) → Visited
and_then none f = none
and_then (some (err e)) f = some (err e)
and_then (some (ok visited)) f = f visited

-- The loop over `depends_on`, of calls of `visit`.
abbrev pub visit_all : (List String → String → Visited) → List String → List String → Visited
visit_all visit visited [] = some (ok visited)
visit_all visit visited (name ∷ names) =
    and_then (visit visited name) (λ more. visit_all visit more names)

abbrev pub leave : String → Visited → Visited
leave name r = and_then r (λ visited. some (ok (name ∷ visited)))

module _ (packages : Packages) where
  abbrev dependencies_of : Option (List String) → List String
  dependencies_of none = []
  dependencies_of (some names) = names

  abbrev pub depends_on : String → List String
  depends_on name = dependencies_of (get_item name packages)

  -- visit; `visiting` has the names whose calls are open.
  unfoldable pub visit : ℕ → List String → List String → String → Visited
  visit zero visiting visited name = none
  visit (suc fuel) visiting visited name =
      let enter = leave name (visit_all (visit fuel (name ∷ visiting)) visited (depends_on name)) in
      if not (is_some (get_item name packages)) || text_in name visiting
      then some (err missing_or_cyclic)
      else if text_in name visited
      then some (ok visited)
      else enter

  -- The calls of visit in the loop of check; no call can be open in another call of the same name.
  unfoldable pub visit_packages : Visited
  visit_packages = visit_all (visit (suc (length packages)) []) [] (keys_of packages)

  abbrev pub with_ancestors :
      List String
      → Option (Result GraphError (List String))
      → Option (Result GraphError (List String))
  with_ancestors names r = and_then r (λ more. some (ok (names ++ more)))

  -- The loop of ancestors; the sets are lists.
  abbrev pub ancestors_all : (String → Visited) → List String → Visited
  ancestors_all ancestors [] = some (ok [])
  ancestors_all ancestors (name ∷ names) =
      and_then (ancestors name) (λ own. with_ancestors own (ancestors_all ancestors names))

  abbrev pub ancestors_of : (String → Visited) → Option (List String) → Visited
  ancestors_of ancestors none = some (err no_package)
  ancestors_of ancestors (some names) = with_ancestors names (ancestors_all ancestors names)

  unfoldable pub ancestors : ℕ → String → Visited
  ancestors zero name = none
  ancestors (suc fuel) name = ancestors_of (ancestors fuel) (get_item name packages)
