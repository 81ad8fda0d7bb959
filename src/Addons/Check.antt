-- ===== src/Addons/Check.antt =====
-- addons/validation.py: `check` from the list of its packages up to check_consumers.
use k8s_stack_tooling.Prelude.{
  String, Bool, true, false, Option, none, some, List, [], ◌∷◌, ◌++◌, any, not, ◌||◌, if◌then◌else◌,
  str_eq, Result, ok, err, ◌>>=◌, Dict, is_some,
}
use k8s_stack_tooling.Value.{Value, null, bool, str, arr, obj, nil, end, field, truthy, text_in}
use k8s_stack_tooling.Addons.Resource.{
  CheckError, duplicate_input, duplicate_producer, no_resources, many_owners, secret_value,
  no_chart, undeclared_chart, key, get, text, elements, empty, Identity, identity_eq, identity, Key,
  key_eq,
}

-- HelmOutput, with its key.
pub record HelmOutput : Type 0 where
  pub output : Key
  pub helm_release : String

-- Package, without its path.
pub record Package : Type 0 where
  pub depends_on : List String
  pub helm_outputs : List HelmOutput

-- What check reads of the manifest; packages come in their order, with their names.
pub record Manifest : Type 0 where
  pub source_name : String
  pub base_charts : List String
  pub inputs : List Key
  pub packages : Dict Package

-- (name, namespace, resource_name, kind, reference)
pub record Consumer : Type 0 where
  pub consumer : String
  pub namespace : String
  pub release : String
  pub is_helm_release : Bool
  pub reference : Value

-- The locals that the loops fill. A producer of `none` is an input.
pub record Checking : Type 0 where
  pub owners : List Identity
  pub outputs : List (Key × Option String)
  pub generated : List (Key × (String × String))
  pub helm_releases : List (Key × Value)
  pub consumers : List Consumer

abbrev pub find_key : {A : Type 0} → Key → List (Key × A) → Option A
find_key k [] = none
find_key k ((j, a) ∷ rest) = if key_eq j k then some a else find_key k rest

-- What the environment gives: the group of an API version; `removeprefix("./")`; the rendered resources
-- of a package, where `none` raises; and whether the chart of the addon is a file, where `none` is
-- raised by `inside`.
pub record Sources : Type 0 where
  pub group_of : String → String
  pub remove_prefix : String → String
  pub render : String → Result CheckError (List Value)
  pub has_chart : String → Result CheckError Bool

abbrev pub add_output : Key → Option String → CheckError → Checking → Result CheckError Checking
add_output k producer e st =
    if is_some (find_key k st.outputs)
    then err e
    else ok (record st { outputs = st.outputs ++ ((k, producer) ∷ []) })

abbrev pub no_locals : Checking
no_locals = record { owners = []; outputs = []; generated = []; helm_releases = []; consumers = [] }

-- `outputs` from the inputs, with the test of their number.
unfoldable pub add_inputs : List Key → Checking → Result CheckError Checking
add_inputs [] st = ok st
add_inputs (k ∷ ks) st = add_output k none duplicate_input st >>= λ st'. add_inputs ks st'

unfoldable pub add_generated : String → List HelmOutput → Checking → Result CheckError Checking
add_generated name [] st = ok st
add_generated name (o ∷ os) st = add_output o.output (some name) duplicate_producer st >>= λ st'.
    add_generated name os
      (record st' { generated = st'.generated ++ ((o.output, (name, o.helm_release)) ∷ []) })

unfoldable pub add_all_generated : Dict Package → Checking → Result CheckError Checking
add_all_generated [] st = ok st
add_all_generated ((name, p) ∷ ps) st =
    add_generated name p.helm_outputs st >>= λ st'. add_all_generated ps st'

abbrev pub add_consumer : Consumer → Checking → Checking
add_consumer c st = record st { consumers = st.consumers ++ (c ∷ []) }

abbrev pub reference_to : String → Value → Value
reference_to kind name = obj (field "kind" (str kind) (field "name" name end))

-- The keys that a ConfigMap or an ExternalSecret makes.
abbrev pub produced : Identity → Value → Result CheckError (Option Key)
produced i resource =
    if str_eq i.kind "ConfigMap"
    then ok (some (i.kind, i.namespace, i.name))
    else if str_eq i.kind "ExternalSecret"
    then (key "spec" resource >>= λ spec. get "target" empty spec >>= λ target.
        get "name" (str i.name) target >>= text >>= λ name. ok (some ("Secret", i.namespace, name)))
    else ok none

abbrev pub add_produced : String → Option Key → Checking → Result CheckError Checking
add_produced name none st = ok st
add_produced name (some k) st = add_output k (some name) duplicate_producer st

abbrev pub consumer_of : String → Identity → Bool → Value → Consumer
consumer_of name i helm reference = record {
  consumer = name;
  namespace = i.namespace;
  release = i.name;
  is_helm_release = helm;
  reference = reference;
}

-- The loop over `templateFrom`.
unfoldable pub add_templates :
    String → Identity → List Value → Checking → Result CheckError Checking
add_templates name i [] st = ok st
add_templates name i (source ∷ rest) st = get "configMap" empty source >>= λ configmap.
    get "name" null configmap >>= λ referred.
    add_templates name i rest
      (add_consumer (consumer_of name i false (reference_to "ConfigMap" referred)) st)

abbrev pub consume_templates : String → Identity → Value → Checking → Result CheckError Checking
consume_templates name i resource st =
    if str_eq i.kind "ExternalSecret"
    then (key "spec" resource >>= λ spec. get "target" empty spec >>= λ target.
        get "template" empty target >>= λ template.
        get "templateFrom" (arr nil) template >>= elements >>= λ sources.
        add_templates name i sources st)
    else ok st

-- The loop over `valuesFrom`.
unfoldable pub add_values : String → Identity → List Value → Checking → Result CheckError Checking
add_values name i [] st = ok st
add_values name i (reference ∷ rest) st = get "optional" (bool false) reference >>= λ optional.
    add_values name i rest
      (if truthy optional then st else add_consumer (consumer_of name i true reference) st)

unfoldable pub add_password : String → Identity → Value → Checking → Result CheckError Checking
add_password name i spec st = get "values" empty spec >>= λ values.
    get "addon" empty values >>= λ addon. get "passwordSecret" null addon >>= λ secret. ok (
      if truthy secret
      then add_consumer (consumer_of name i true (reference_to "Secret" secret)) st
      else st)

module _ (sources : Sources) (m : Manifest) where
  -- The chart of a HelmRelease.
  unfoldable pub check_chart : Value → Result CheckError (Unit {0})
  check_chart spec = (key "chart" spec >>= key "spec") >>= λ chart.
      (key "sourceRef" chart >>= key "name" >>= text) >>= λ source.
      (key "chart" chart >>= text) >>= λ path.
      if str_eq source m.source_name
      then (sources.has_chart path >>= λ there. if there then ok tt else err no_chart)
      else if not (str_eq source "k8s-stack")
          || not (text_in (sources.remove_prefix path) m.base_charts)
      then err undeclared_chart
      else ok tt

  -- The rest of the loop for a HelmRelease.
  unfoldable pub check_helm_release :
      String → Identity → Value → Checking → Result CheckError Checking
  check_helm_release name i resource st = key "spec" resource >>= λ spec.
      get "valuesFrom" (arr nil) spec >>= elements >>= λ references.
      add_values name i references
        (record st { helm_releases = ((name, i.namespace, i.name), resource) ∷ st.helm_releases })
      >>= λ st'. add_password name i spec st' >>= λ st''. check_chart spec >>= λ _. ok st''

  -- The body of the loop over the resources of a package.
  unfoldable pub check_resource : String → Value → Checking → Result CheckError Checking
  check_resource name resource st = identity sources.group_of resource >>= λ i.
      if any (identity_eq i) st.owners
      then err many_owners
      else produced i resource >>= λ output.
          add_produced name output (record st { owners = i ∷ st.owners }) >>= λ st1.
          if str_eq i.kind "Secret"
          then err secret_value
          else consume_templates name i resource st1 >>= λ st2.
              if str_eq i.kind "HelmRelease" then check_helm_release name i resource st2 else ok st2

  unfoldable pub check_resources : String → List Value → Checking → Result CheckError Checking
  check_resources name [] st = ok st
  check_resources name (resource ∷ rest) st =
      check_resource name resource st >>= λ st'. check_resources name rest st'

  abbrev pub refuse_empty : List Value → Result CheckError (List Value)
  refuse_empty [] = err no_resources
  refuse_empty (r ∷ rs) = ok (r ∷ rs)

  unfoldable pub check_package : String → Checking → Result CheckError Checking
  check_package name st =
      sources.render name >>= refuse_empty >>= λ resources. check_resources name resources st
