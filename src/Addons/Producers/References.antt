-- ===== src/Addons/Producers/References.antt =====
-- addons/validation.py: that `check` collects every reference of what is rendered.
use k8s_stack_tooling.Prelude.{
  String, Bool, true, false, Option, none, some, List, [], ◌∷◌, ◌++◌, any, ◌≡◌, ◌⊎◌, sym, subst,
  ◌∙◌, if◌then◌else◌, str_eq, ok, Result, ◌>>=◌, >>=-eq_ok, guard-eq_ok, ok_injective, is_some,
  Bool-cases, inl, inr, ap, All,
}
use k8s_stack_tooling.Value.{Value, truthy, null, bool, arr, nil}
use k8s_stack_tooling.Addons.Resource.{
  CheckError, key, get, elements, empty, Identity, identity_eq, identity, Key,
}
use k8s_stack_tooling.Addons.Producers.Owners.{refuse_empty-eq_ok}
use k8s_stack_tooling.Addons.Check.{
  Manifest, Consumer, Checking, Sources, find_key, produced, add_produced, add_templates,
  consume_templates, add_values, add_password, check_chart, check_helm_release, check_resource,
  check_resources, check_package, refuse_empty, consumer_of, reference_to,
}

-- `resource["spec"].get("target", {}).get("template", {}).get("templateFrom", [])`, as a list
abbrev pub templates_of : Value → Result CheckError (List Value)
templates_of resource = key "spec" resource >>= λ spec. get "target" empty spec >>= λ target.
    get "template" empty target >>= λ template. get "templateFrom" (arr nil) template >>= elements

-- `spec.get("values", {}).get("addon", {}).get("passwordSecret")`
abbrev pub password_of : Value → Result CheckError Value
password_of spec = get "values" empty spec >>= λ values.
    get "addon" empty values >>= λ addon. get "passwordSecret" null addon

-- What holds of every reference of a resource.
module _ (Q : Consumer → Type 0) (name : String) (i : Identity) where
  -- A template is read of a ConfigMap.
  abbrev pub OfTemplate : Value → Type 0
  OfTemplate source =
      (referred : Value) × ((get "configMap" empty source >>= get "name" null) ≡ ok referred)
      × Q (consumer_of name i false (reference_to "ConfigMap" referred))

  -- A reference for the values that is not optional.
  abbrev pub OfReference : Value → Type 0
  OfReference reference =
      (optional : Value) × (get "optional" (bool false) reference ≡ ok optional)
      × ((truthy optional ≡ true) ⊎ Q (consumer_of name i true reference))

  -- The Secret of the password, if there is one.
  abbrev pub OfPassword : Value → Type 0
  OfPassword spec =
      (secret : Value) × (password_of spec ≡ ok secret)
      × ((truthy secret ≡ false) ⊎ Q (consumer_of name i true (reference_to "Secret" secret)))

  abbrev pub OfExternalSecret : Value → Bool → Type 0
  OfExternalSecret resource false = Unit
  OfExternalSecret resource true =
      (templates : List Value) × (templates_of resource ≡ ok templates) × All OfTemplate templates

  abbrev pub OfHelmRelease : Value → Bool → Type 0
  OfHelmRelease resource false = Unit
  OfHelmRelease resource true =
      (spec : Value) × (key "spec" resource ≡ ok spec)
      × ((references : List Value) × ((get "valuesFrom" (arr nil) spec >>= elements)
            ≡ ok references)
          × All OfReference references)
      × OfPassword spec

module _ (sources : Sources) (Q : Consumer → Type 0) where
  -- The ConfigMaps of the templates of an ExternalSecret; what a HelmRelease reads its values of, but
  -- for optional references, and the Secret of its password.
  abbrev pub OfResource : String → Value → Type 0
  OfResource name resource =
      (i : Identity) × (identity sources.group_of resource ≡ ok i)
      × OfExternalSecret Q name i resource (str_eq i.kind "ExternalSecret")
      × OfHelmRelease Q name i resource (str_eq i.kind "HelmRelease")

  -- All that is rendered for the package.
  abbrev pub OfPackage : String → Type 0
  OfPackage name =
      (resources : List Value) × (sources.render name ≡ ok resources)
      × All (OfResource name) resources

module _ (Q : Consumer → Type 0) where
  All-last : (cs : List Consumer) (c : Consumer) → All Q (cs ++ (c ∷ [])) → All Q cs × Q c
  All-last [] c (q, _) = (tt, q)
  All-last (x ∷ cs) c (q, all) = let (before, last) = All-last cs c all in ((q, before), last)

  abbrev AllIn : Checking → Type 0
  AllIn st = All Q st.consumers

  add_templates-All :
      (name : String) (i : Identity) (templates : List Value) (st st' : Checking)
      → add_templates name i templates st ≡ ok st'
      → AllIn st'
      → AllIn st × All (OfTemplate Q name i) templates
  unfolding add_templates
  add_templates-All name i [] st st' h all = (subst AllIn (sym (ok_injective h)) all, tt)
  add_templates-All name i (source ∷ rest) st st' h all =
      let (configmap, one, h1) = >>=-eq_ok (get "configMap" empty source) _ h in
      let (referred, two, h2) = >>=-eq_ok (get "name" null configmap) _ h1 in
      let (with_it, others) = add_templates-All name i rest _ st' h2 all in
      let (before, it) = All-last st.consumers _ with_it in
      (before, ((referred, rw one two, it), others))

  add_values-All :
      (name : String) (i : Identity) (references : List Value) (st st' : Checking)
      → add_values name i references st ≡ ok st'
      → AllIn st'
      → AllIn st × All (OfReference Q name i) references
  unfolding add_values
  add_values-All name i [] st st' h all = (subst AllIn (sym (ok_injective h)) all, tt)
  add_values-All name i (reference ∷ rest) st st' h all =
      let (optional, one, h1) = >>=-eq_ok (get "optional" (bool false) reference) _ h in
      let (with_it, others) = add_values-All name i rest _ st' h1 all in
      elim (Bool-cases (truthy optional)) [
        | inl free ↦ (rw free at with_it, ((optional, one, inl free), others))
        | inr bound ↦
            let (before, it) = All-last st.consumers _ (rw bound at with_it) in
            (before, ((optional, one, inr it), others))
      ]

  add_password-All :
      (name : String) (i : Identity) (spec : Value) (st st' : Checking)
      → add_password name i spec st ≡ ok st'
      → AllIn st'
      → AllIn st × OfPassword Q name i spec
  unfolding add_password
  add_password-All name i spec st st' h all =
      let (values, one, h1) = >>=-eq_ok (get "values" empty spec) _ h in
      let (addon, two, h2) = >>=-eq_ok (get "addon" empty values) _ h1 in
      let (secret, three, h3) = >>=-eq_ok (get "passwordSecret" null addon) _ h2 in
      let is_secret : password_of spec ≡ ok secret = rw one (rw two three) in
      let with_it = subst AllIn (sym (ok_injective h3)) all in
      elim (Bool-cases (truthy secret)) [
        | inr unset ↦ (rw unset at with_it, (secret, is_secret, inl unset))
        | inl set ↦
            let (before, it) = All-last st.consumers _ (rw set at with_it) in
            (before, (secret, is_secret, inr it))
      ]

  consume_templates-All :
      (name : String) (i : Identity) (resource : Value) (st st' : Checking)
      → consume_templates name i resource st ≡ ok st'
      → AllIn st'
      → AllIn st × OfExternalSecret Q name i resource (str_eq i.kind "ExternalSecret")
  consume_templates-All name i resource st st' h all =
      elim (Bool-cases (str_eq i.kind "ExternalSecret")) [
        | inr other ↦ rw other (subst AllIn (sym (ok_injective (rw other at h))) all, tt)
        | inl external ↦
            let (spec, one, h1) = >>=-eq_ok (key "spec" resource) _ (rw external at h) in
            let (target, two, h2) = >>=-eq_ok (get "target" empty spec) _ h1 in
            let (template, three, h3) = >>=-eq_ok (get "template" empty target) _ h2 in
            let (templates, four, h4) =
              >>=-eq_ok (get "templateFrom" (arr nil) template >>= elements) _ h3 in
            let (before, each) = add_templates-All name i templates st st' h4 all in
            rw external (before, (templates, rw one (rw two (rw three four)), each))
      ]

  add_produced-consumers :
      (name : String) (k : Option Key) (st st' : Checking)
      → add_produced name k st ≡ ok st'
      → st'.consumers ≡ st.consumers
  add_produced-consumers name none st st' h =
      sym (ap (λ (s : Checking). s.consumers) (ok_injective h))
  add_produced-consumers name (some k) st st' h =
      let (new, added) = guard-eq_ok (is_some (find_key k st.outputs)) _ _ h in
      sym (ap (λ (s : Checking). s.consumers) (ok_injective added))

  module _ (sources : Sources) (m : Manifest) where
    check_helm_release-All :
        (name : String) (i : Identity) (resource : Value) (st st' : Checking)
        → check_helm_release sources m name i resource st ≡ ok st'
        → AllIn st'
        → AllIn st × OfHelmRelease Q name i resource true
    unfolding check_helm_release
    check_helm_release-All name i resource st st' h all =
        let (spec, one, h1) = >>=-eq_ok (key "spec" resource) _ h in
        let (references, two, h2) = >>=-eq_ok (get "valuesFrom" (arr nil) spec >>= elements) _ h1 in
        let (s, three, h3) = >>=-eq_ok (add_values name i references _) _ h2 in
        let (t, four, h4) = >>=-eq_ok (add_password name i spec s) _ h3 in
        let (u, five, h5) = >>=-eq_ok (check_chart sources m spec) _ h4 in
        let (after_values, password) =
          add_password-All name i spec s t four (subst AllIn (sym (ok_injective h5)) all) in
        let (before, each) = add_values-All name i references _ s three after_values in
        (before, (spec, one, (references, two, each), password))

    check_resource-All :
        (name : String) (resource : Value) (st st' : Checking)
        → check_resource sources m name resource st ≡ ok st'
        → AllIn st'
        → AllIn st × OfResource sources Q name resource
    unfolding check_resource
    check_resource-All name resource st st' h all =
        let (i, is_i, h1) = >>=-eq_ok (identity sources.group_of resource) _ h in
        let (new, h2) = guard-eq_ok (any (identity_eq i) st.owners) _ _ h1 in
        let (output, two, h3) = >>=-eq_ok (produced i resource) _ h2 in
        let (s, three, h4) =
          >>=-eq_ok (add_produced name output (record st { owners = i ∷ st.owners })) _ h3 in
        let (other, h5) = guard-eq_ok (str_eq i.kind "Secret") _ _ h4 in
        let (t, four, h6) = >>=-eq_ok (consume_templates name i resource s) _ h5 in
        let (before_release, release) = last i t (str_eq i.kind "HelmRelease") h6 in
        let (before, templates) = consume_templates-All name i resource s t four before_release in
        (
          subst (All Q) (add_produced-consumers name output _ s three) before,
          (i, is_i, templates, release),
        )
      where
        last :
            (i : Identity) (t : Checking) (b : Bool)
            → (if b then check_helm_release sources m name i resource t else ok t) ≡ ok st'
            → AllIn t × OfHelmRelease Q name i resource b
        last i t true h = check_helm_release-All name i resource t st' h all
        last i t false h = (subst AllIn (sym (ok_injective h)) all, tt)

    check_resources-All :
        (name : String) (resources : List Value) (st st' : Checking)
        → check_resources sources m name resources st ≡ ok st'
        → AllIn st'
        → AllIn st × All (OfResource sources Q name) resources
    unfolding check_resources
    check_resources-All name [] st st' h all = (subst AllIn (sym (ok_injective h)) all, tt)
    check_resources-All name (resource ∷ rest) st st' h all =
        let (s, one, more) = >>=-eq_ok (check_resource sources m name resource st) _ h in
        let (between, others) = check_resources-All name rest s st' more all in
        let (before, it) = check_resource-All name resource st s one between in
        (before, (it, others))

    pub check_package-All :
        (name : String) (st st' : Checking)
        → check_package sources m name st ≡ ok st'
        → AllIn st'
        → AllIn st × OfPackage sources Q name
    unfolding check_package
    check_package-All name st st' h all =
        let (resources, one, rest) =
          >>=-eq_ok (sources.render name >>= refuse_empty sources m) _ h in
        let (rendered, is_rendered, kept) = >>=-eq_ok (sources.render name) _ one in
        let (before, each) = check_resources-All name resources st st' rest all in
        (
          before,
          (
            resources,
            is_rendered ∙ ap ok (refuse_empty-eq_ok sources m rendered resources kept),
            each,
          ),
        )
