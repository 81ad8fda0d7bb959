-- ===== src/Addons/Producers/Examples.antt =====
-- addons/validation.py: `check` on a small addon, and its graphs.
use k8s_stack_tooling.Prelude.{
  String, Bool, true, false, none, some, List, [], ◌∷◌, ◌≡◌, ◌≢◌, ◌↔◌, refl, ok, is_some,
  if◌then◌else◌, str_eq,
}
use k8s_stack_tooling.Value.{Value, str, arr, obj, nil, cons, end, field}
use k8s_stack_tooling.Addons.Graph.{Packages, visit, visit_packages, ancestors}
use k8s_stack_tooling.Addons.Graph.Order.{IsAcyclic, visit_packages_iff}
use k8s_stack_tooling.Addons.Graph.Ancestors.{AreAncestors, ancestors_end}
use k8s_stack_tooling.Addons.Resource.{key, get, text, elements, identity}
use k8s_stack_tooling.Addons.Check.{
  Manifest, Checking, Sources, add_inputs, add_generated, add_all_generated, add_values,
  add_password, check_chart, check_helm_release, check_resource, check_resources, check_package,
}
use k8s_stack_tooling.Addons.Producers.{
  Checked, check_generated, check_packages, check_consumer, check_all_consumers, check,
}
use k8s_stack_tooling.Addons.Producers.Passed.{IsSound, check-IsSound}

-- The package `app` needs `config`, which needs `base`.
abbrev three : Packages
three = ("app", "config" ∷ []) ∷ ("config", "base" ∷ []) ∷ ("base", []) ∷ []

visits : visit_packages three ≡ some (ok ("app" ∷ "config" ∷ "base" ∷ []))
unfolding visit_packages visit
visits = refl

refuses_a_cycle : is_some (visit_packages (("app", "app" ∷ []) ∷ [])) ≡ true
unfolding visit_packages visit
refuses_a_cycle = refl

visit_packages_iff_example :
    (visit_packages three ≢ none)
    × (((w : List String) × (visit_packages three ≡ some (ok w))) ↔ IsAcyclic three)
visit_packages_iff_example = visit_packages_iff three

ancestors_end_example : AreAncestors three "app" (ancestors three 4 "app")
ancestors_end_example = ancestors_end three ("app" ∷ "config" ∷ "base" ∷ []) "app" visits refl

abbrev metadata : String → Value
metadata name = obj (field "name" (str name) (field "namespace" (str "ns") end))

abbrev settings : Value
settings = obj (
    field "apiVersion" (str "v1")
      (field "kind" (str "ConfigMap") (field "metadata" (metadata "settings") end)))

abbrev release : Value
release = obj (
    field "apiVersion" (str "v2") (
      field "kind" (str "HelmRelease") (
        field "metadata" (metadata "app") (
          field "spec"
            (obj (
              field "valuesFrom"
                (arr (
                  cons (obj (field "kind" (str "ConfigMap") (field "name" (str "settings") end)))
                    nil))
                (field "chart"
                  (obj (
                    field "spec"
                      (obj (
                        field "sourceRef" (obj (field "name" (str "addon") end))
                          (field "chart" (str "chart") end)))
                      end))
                  end)))
            end))))

abbrev manifest : Manifest
manifest = record {
  source_name = "addon";
  base_charts = [];
  inputs = [];
  packages =
      ("app", record { depends_on = "config" ∷ []; helm_outputs = [] })
      ∷ ("config", record { depends_on = []; helm_outputs = [] })
      ∷ [];
}

abbrev rendered : String → List Value
rendered name = if str_eq name "app" then release ∷ [] else settings ∷ []

abbrev is_passed : Checked Checking → Bool
is_passed (some (ok st)) = true
is_passed _ = false

abbrev sources : Sources
sources = record {
  group_of = λ (api : String). "";
  remove_prefix = λ (path : String). path;
  render = λ (name : String). ok (rendered name);
  has_chart = λ (path : String). ok true;
}

passes : is_passed (check sources manifest) ≡ true
unfolding check check_packages visit check_package check_resources check_resource identity
    check_helm_release check_chart add_values add_password add_inputs add_all_generated
    add_generated check_generated check_all_consumers check_consumer ancestors key get text elements
passes = refl

check-IsSound_example :
    (check sources manifest ≢ none)
    × ((st : Checking) → check sources manifest ≡ some (ok st) → IsSound sources manifest st)
check-IsSound_example = check-IsSound sources manifest
