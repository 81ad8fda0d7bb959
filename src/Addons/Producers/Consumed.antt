-- ===== src/Addons/Producers/Consumed.antt =====
-- addons/validation.py: what the search of a resource for its references leaves as it was.
use k8s_stack_tooling.Prelude.{
  String, Bool, true, false, List, [], ◌∷◌, ◌≡◌, refl, sym, ◌∙◌, if◌then◌else◌, str_eq, ok, ◌>>=◌,
  >>=-eq_ok, ok_injective, Bool-cases, inl, inr, ap,
}
use k8s_stack_tooling.Value.{Value, truthy, null, bool, arr, nil}
use k8s_stack_tooling.Addons.Resource.{key, get, elements, empty, Identity, Key}
use k8s_stack_tooling.Addons.Check.{
  Consumer, Manifest, Checking, Sources, add_consumer, add_templates, consume_templates, add_values,
  add_password, check_chart, check_helm_release, consumer_of, reference_to,
}

-- A part of the locals that does not depend on the consumers, and not on the Helm releases.
module _ {A : Type 0} (f : Checking → A)
    (blind : (c : Consumer) (st : Checking) → f (add_consumer c st) ≡ f st)
    (unread : (rs : List (Key × Value)) (st : Checking)
      → f (record st { helm_releases = rs }) ≡ f st) where
  add_templates-kept :
      (name : String) (i : Identity) (sources : List Value) (st st' : Checking)
      → add_templates name i sources st ≡ ok st'
      → f st' ≡ f st
  unfolding add_templates
  add_templates-kept name i [] st st' h = sym (ap f (ok_injective h))
  add_templates-kept name i (source ∷ rest) st st' h =
      let (configmap, one, h1) = >>=-eq_ok (get "configMap" empty source) _ h in
      let (referred, two, h2) = >>=-eq_ok (get "name" null configmap) _ h1 in
      add_templates-kept name i rest _ st' h2 ∙ blind _ st

  add_values-kept :
      (name : String) (i : Identity) (references : List Value) (st st' : Checking)
      → add_values name i references st ≡ ok st'
      → f st' ≡ f st
  unfolding add_values
  add_values-kept name i [] st st' h = sym (ap f (ok_injective h))
  add_values-kept name i (reference ∷ rest) st st' h =
      let (optional, one, h1) = >>=-eq_ok (get "optional" (bool false) reference) _ h in
      add_values-kept name i rest _ st' h1 ∙ same (truthy optional)
    where
      same :
          (b : Bool)
          → f (if b then st else add_consumer (consumer_of name i true reference) st) ≡ f st
      same true = refl
      same false = blind _ st

  add_password-kept :
      (name : String) (i : Identity) (spec : Value) (st st' : Checking)
      → add_password name i spec st ≡ ok st'
      → f st' ≡ f st
  unfolding add_password
  add_password-kept name i spec st st' h =
      let (values, one, h1) = >>=-eq_ok (get "values" empty spec) _ h in
      let (addon, two, h2) = >>=-eq_ok (get "addon" empty values) _ h1 in
      let (secret, three, h3) = >>=-eq_ok (get "passwordSecret" null addon) _ h2 in
      sym (ap f (ok_injective h3)) ∙ same (truthy secret) (reference_to "Secret" secret)
    where
      same :
          (b : Bool) (r : Value)
          → f (if b then add_consumer (consumer_of name i true r) st else st) ≡ f st
      same true r = blind _ st
      same false r = refl

  pub consume_templates-kept :
      (name : String) (i : Identity) (resource : Value) (st st' : Checking)
      → consume_templates name i resource st ≡ ok st'
      → f st' ≡ f st
  consume_templates-kept name i resource st st' h =
      elim (Bool-cases (str_eq i.kind "ExternalSecret")) [
        | inr other ↦ sym (ap f (ok_injective (rw other at h)))
        | inl external ↦
            let (spec, one, h1) = >>=-eq_ok (key "spec" resource) _ (rw external at h) in
            let (target, two, h2) = >>=-eq_ok (get "target" empty spec) _ h1 in
            let (template, three, h3) = >>=-eq_ok (get "template" empty target) _ h2 in
            let (sources, four, h4) =
              >>=-eq_ok (get "templateFrom" (arr nil) template >>= elements) _ h3 in
            add_templates-kept name i sources st st' h4
      ]

  module _ (sources : Sources) (m : Manifest) where
    pub check_helm_release-kept :
        (name : String) (i : Identity) (resource : Value) (st st' : Checking)
        → check_helm_release sources m name i resource st ≡ ok st'
        → f st' ≡ f st
    unfolding check_helm_release
    check_helm_release-kept name i resource st st' h =
        let (spec, one, h1) = >>=-eq_ok (key "spec" resource) _ h in
        let (references, two, h2) = >>=-eq_ok (get "valuesFrom" (arr nil) spec >>= elements) _ h1 in
        let (s, three, h3) =
          >>=-eq_ok
            (add_values name i references (record st {
              helm_releases = ((name, i.namespace, i.name), resource) ∷ st.helm_releases;
            }))
            _ h2 in
        let (t, four, h4) = >>=-eq_ok (add_password name i spec s) _ h3 in
        let (u, five, h5) = >>=-eq_ok (check_chart sources m spec) _ h4 in
        sym (ap f (ok_injective h5))
        ∙ add_password-kept name i spec s t four
        ∙ add_values-kept name i references _ s three
        ∙ unread _ st
