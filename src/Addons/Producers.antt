-- ===== src/Addons/Producers.antt =====
-- addons/validation.py: the loop of `check` over its packages, and its tests of the producers.
mod After
mod Consumed
mod References
mod Made
mod Supplied
pub mod Owners
pub mod Passed
mod Examples
use k8s_stack_tooling.Prelude.{
  ℕ, zero, suc, String, Bool, true, false, Option, none, some, List, [], ◌∷◌, map, not, ◌&&◌, ◌||◌,
  if◌then◌else◌, str_eq, Result, ok, err, ◌>>=◌, Dict, get_item, keys_of, is_some, length,
}
use k8s_stack_tooling.Value.{Value, str, arr, nil, text_in}
use k8s_stack_tooling.Addons.Graph.{GraphError, Packages, Visited, visit, ancestors}
use k8s_stack_tooling.Addons.Resource.{
  CheckError, malformed, same_package_names, no_helm_producer, no_producer, no_readiness,
  own_output, no_helm_readiness, graph, key, get, text, elements, Key,
}
use k8s_stack_tooling.Addons.Check.{
  Package, Manifest, Consumer, Checking, Sources, find_key, no_locals, add_inputs,
  add_all_generated, check_package,
}

-- A result, or `none` where the fuel ran out.
abbrev pub Checked : Type 0 → Type 0
Checked A = Option (Result CheckError A)

abbrev pub after_visit : {A : Type 0} → Visited → (List String → Checked A) → Checked A
after_visit none f = none
after_visit (some (err e)) f = some (err (graph e))
after_visit (some (ok w)) f = f w

abbrev pub after_result : {A B : Type 0} → Result CheckError A → (A → Checked B) → Checked B
after_result (err e) f = some (err e)
after_result (ok a) f = f a

abbrev pub after : {A B : Type 0} → Checked A → (A → Checked B) → Checked B
after none f = none
after (some r) f = after_result r f

-- `depends_on` of the packages
abbrev pub graph_of : Manifest → Packages
graph_of m = map (λ (x : String × Package). (x.0, x.1.depends_on)) m.packages

abbrev pub are_different : List String → Bool
are_different [] = true
are_different (s ∷ ss) = not (text_in s ss) && are_different ss

abbrev pub find_named : {A : Type 0} → String → String → Value → List (Key × A) → Option A
find_named kind namespace (str name) rows = find_key (kind, namespace, name) rows
find_named kind namespace _ rows = none

-- `item["name"] == release and item.get("namespace", namespace) == namespace`
abbrev is_release : String → String → Value → Result CheckError Bool
is_release namespace release item = key "name" item >>= text >>= λ name.
    if not (str_eq name release)
    then ok false
    else get "namespace" (str namespace) item >>= text >>= λ own. ok (str_eq own namespace)

unfoldable pub any_release : String → String → List Value → Result CheckError Bool
any_release namespace release [] = ok false
any_release namespace release (item ∷ items) = is_release namespace release item >>= λ b.
    if b then ok true else any_release namespace release items

abbrev required_release : Option Value → Result CheckError Value
required_release none = err malformed
required_release (some resource) = ok resource

abbrev pub require_listed : Bool → Checked (Unit {0})
require_listed true = some (ok tt)
require_listed false = some (err no_readiness)

-- The loop over `generated`.
unfoldable pub check_generated :
    List (Key × (String × String)) → List (Key × Value) → Result CheckError (Unit {0})
check_generated [] releases = ok tt
check_generated (((kind, namespace, name), (package_name, release)) ∷ rest) releases =
    if is_some (find_key (package_name, namespace, release) releases)
    then check_generated rest releases
    else err no_helm_producer

module _ (sources : Sources) (m : Manifest) where
  -- The loop over the packages; `visit` keeps the names visited between its calls.
  unfoldable pub check_packages :
      List String → List String → Checking → Checked (List String × Checking)
  check_packages [] visited st = some (ok (visited, st))
  check_packages (name ∷ names) visited st =
      after_visit (visit (graph_of m) (suc (length (graph_of m))) [] visited name)
        (λ w. after_result (check_package sources m name st) (λ st'. check_packages names w st'))

  module _ (visited : List String) (st : Checking) where
    -- A Helm output that a HelmRelease of its own package reads.
    abbrev check_generated_use : Consumer → Option (String × String) → Result CheckError (Unit {0})
    check_generated_use c none = ok tt
    check_generated_use c (some (package_name, release)) =
        if not c.is_helm_release
        then ok tt
        else if str_eq c.release release
        then err own_output
        else required_release (find_key (c.consumer, c.namespace, c.release) st.helm_releases)
          >>= λ resource. key "spec" resource >>= λ spec.
              get "dependsOn" (arr nil) spec >>= elements >>= λ dependencies.
              any_release c.namespace release dependencies >>= λ b.
              if b then ok tt else err no_helm_readiness

    abbrev pub require_ready : Consumer → String → Checked (Unit {0})
    require_ready c producer =
        after_visit (ancestors (graph_of m) (suc (length visited)) c.consumer)
          (λ l. require_listed (text_in producer l))

    abbrev pub check_producer :
        Consumer → Option (String × String) → Option (Option String) → Checked (Unit {0})
    check_producer c generated none = some (err no_producer)
    check_producer c generated (some none) = some (ok tt)
    check_producer c generated (some (some producer)) =
        if str_eq producer c.consumer
        then some (check_generated_use c generated)
        else require_ready c producer

    -- The body of the loop over `consumers`. As many rounds as there are names visited, and one more,
    -- are enough for `ancestors`.
    unfoldable pub check_consumer : Consumer → Checked (Unit {0})
    check_consumer c = after_result (key "kind" c.reference >>= text) (λ kind.
        after_result (key "name" c.reference) (λ name.
          check_producer c (find_named kind c.namespace name st.generated)
            (find_named kind c.namespace name st.outputs)))

    unfoldable pub check_all_consumers : List Consumer → Checked (Unit {0})
    check_all_consumers [] = some (ok tt)
    check_all_consumers (c ∷ cs) = after (check_consumer c) (λ _. check_all_consumers cs)

  abbrev pub check_producers : List String × Checking → Checked Checking
  check_producers (visited, st) =
      after_result (check_generated st.generated st.helm_releases)
        (λ _. after (check_all_consumers visited st st.consumers) (λ _. some (ok st)))

  -- check, from its test of the package names to the call of check_consumers.
  unfoldable pub check : Checked Checking
  check =
      if not (are_different (keys_of m.packages))
      then some (err same_package_names)
      else after_result (add_inputs m.inputs no_locals >>= add_all_generated m.packages)
          (λ st. after (check_packages (keys_of m.packages) [] st) check_producers)
