-- ===== src/Addons/Producers/Owners.antt =====
-- addons/validation.py: the owners that `check` collects from the resources of all packages.
use k8s_stack_tooling.Prelude.{
  String, Bool, true, false, Option, none, some, List, [], ◌∷◌, ◌++◌, any, ◌≡◌, refl, sym, subst,
  ◌∙◌, if◌then◌else◌, str_eq, ok, ◌>>=◌, >>=-eq_ok, guard-eq_ok, ok_injective, Dict, is_some,
  Bool-cases, inl, inr, ap,
}
use k8s_stack_tooling.Value.{Value}
use k8s_stack_tooling.Addons.Resource.{CheckError, Identity, identity_eq, identity, Key}
use k8s_stack_tooling.Addons.Check.{
  HelmOutput, Package, Manifest, Checking, Sources, find_key, add_output, add_inputs, add_generated,
  add_all_generated, no_locals, produced, add_produced, consume_templates, check_helm_release,
  check_resource, check_resources, check_package, refuse_empty,
}
use k8s_stack_tooling.Addons.Producers.Consumed.{consume_templates-kept, check_helm_release-kept}

add_output-owners :
    (k : Key) (p : Option String) (e : CheckError) (st st' : Checking)
    → add_output k p e st ≡ ok st'
    → st'.owners ≡ st.owners
add_output-owners k p e st st' h = elim (Bool-cases (is_some (find_key k st.outputs))) [
  | inl there ↦ cc (rw there at h)
  | inr new ↦
      let same : record st { outputs = st.outputs ++ ((k, p) ∷ []) } ≡ st' =
        ok_injective (rw new at h) in
      sym (ap (λ (s : Checking). s.owners) same)
]

add_inputs-owners :
    (ks : List Key) (st st' : Checking) → add_inputs ks st ≡ ok st' → st'.owners ≡ st.owners
unfolding add_inputs
add_inputs-owners [] st st' h = sym (ap (λ (s : Checking). s.owners) (ok_injective h))
add_inputs-owners (k ∷ ks) st st' h =
    let (s, one, rest) = >>=-eq_ok (add_output k none _ st) _ h in
    add_inputs-owners ks s st' rest ∙ add_output-owners k none _ st s one

add_generated-owners :
    (name : String) (os : List HelmOutput) (st st' : Checking)
    → add_generated name os st ≡ ok st'
    → st'.owners ≡ st.owners
unfolding add_generated
add_generated-owners name [] st st' h = sym (ap (λ (s : Checking). s.owners) (ok_injective h))
add_generated-owners name (o ∷ os) st st' h =
    let (s, one, rest) = >>=-eq_ok (add_output o.output (some name) _ st) _ h in
    add_generated-owners name os _ st' rest ∙ add_output-owners o.output (some name) _ st s one

add_all_generated-owners :
    (ps : Dict Package) (st st' : Checking)
    → add_all_generated ps st ≡ ok st'
    → st'.owners ≡ st.owners
unfolding add_all_generated
add_all_generated-owners [] st st' h = sym (ap (λ (s : Checking). s.owners) (ok_injective h))
add_all_generated-owners ((name, p) ∷ ps) st st' h =
    let (s, one, rest) = >>=-eq_ok (add_generated name p.helm_outputs st) _ h in
    add_all_generated-owners ps s st' rest ∙ add_generated-owners name p.helm_outputs st s one

add_produced-owners :
    (name : String) (k : Option Key) (st st' : Checking)
    → add_produced name k st ≡ ok st'
    → st'.owners ≡ st.owners
add_produced-owners name none st st' h = sym (ap (λ (s : Checking). s.owners) (ok_injective h))
add_produced-owners name (some k) st st' h = add_output-owners k (some name) _ st st' h

module _ (sources : Sources) (m : Manifest) where
  -- No resource before has the identity, and it is not of a Secret.
  abbrev IsNew : Identity → List Identity → Type 0
  IsNew i before = (any (identity_eq i) before ≡ false) × (str_eq i.kind "Secret" ≡ false)

  -- The identities of the resources are new, one after the other, and go before those that were there.
  abbrev pub Own : List Value → List Identity → List Identity → Type 0
  Own [] before owners = before ≡ owners
  Own (resource ∷ rest) before owners =
      (i : Identity) × (identity sources.group_of resource ≡ ok i)
      × IsNew i before
      × Own rest (i ∷ before) owners

  -- The same of all that is rendered for the packages.
  abbrev pub PackagesOwn : List String → List Identity → List Identity → Type 0
  PackagesOwn [] before owners = before ≡ owners
  PackagesOwn (name ∷ names) before owners =
      (resources : List Value) × (sources.render name ≡ ok resources)
      × ((owned : List Identity) × Own resources before owned × PackagesOwn names owned owners)

  check_resource-IsNew :
      (name : String) (resource : Value) (st st' : Checking)
      → check_resource sources m name resource st ≡ ok st'
      → (i : Identity) × (identity sources.group_of resource ≡ ok i)
        × IsNew i st.owners
        × (st'.owners ≡ i ∷ st.owners)
  unfolding check_resource
  check_resource-IsNew name resource st st' h =
      let (i, is_i, h1) = >>=-eq_ok (identity sources.group_of resource) _ h in
      let (new, h2) = guard-eq_ok (any (identity_eq i) st.owners) _ _ h1 in
      let (output, two, h3) = >>=-eq_ok (produced i resource) _ h2 in
      let (s, three, h4) =
        >>=-eq_ok (add_produced name output (record st { owners = i ∷ st.owners })) _ h3 in
      let (other, h5) = guard-eq_ok (str_eq i.kind "Secret") _ _ h4 in
      let (t, four, h6) = >>=-eq_ok (consume_templates name i resource s) _ h5 in
      (
        i,
        is_i,
        (new, other),
        last i t st' (str_eq i.kind "HelmRelease") h6
            ∙ consume_templates-kept (λ (s : Checking). s.owners) (λ c s. refl) (λ rs s. refl) name
                i resource s t four
            ∙ add_produced-owners name output _ s three,
      )
    where
      last :
          (i : Identity) (t st' : Checking) (b : Bool)
          → (if b then check_helm_release sources m name i resource t else ok t) ≡ ok st'
          → st'.owners ≡ t.owners
      last i t st' true h =
          check_helm_release-kept (λ (s : Checking). s.owners) (λ c s. refl) (λ rs s. refl) sources
            m name i resource t st' h
      last i t st' false h = sym (ap (λ (s : Checking). s.owners) (ok_injective h))

  check_resources-Own :
      (name : String) (resources : List Value) (st st' : Checking)
      → check_resources sources m name resources st ≡ ok st'
      → Own resources st.owners st'.owners
  unfolding check_resources
  check_resources-Own name [] st st' h = ap (λ (s : Checking). s.owners) (ok_injective h)
  check_resources-Own name (resource ∷ rest) st st' h =
      let (s, one, more) = >>=-eq_ok (check_resource sources m name resource st) _ h in
      let (i, is_i, new, same) = check_resource-IsNew name resource st s one in
      (
        i,
        is_i,
        new,
        subst (λ (before : List Identity). Own rest before st'.owners) same
            (check_resources-Own name rest s st' more),
      )

  pub refuse_empty-eq_ok : (rs rs' : List Value) → refuse_empty sources m rs ≡ ok rs' → rs ≡ rs'
  refuse_empty-eq_ok [] rs' h = cc h
  refuse_empty-eq_ok (r ∷ rs) rs' h = ok_injective h

  pub check_package-Own :
      (name : String) (st st' : Checking)
      → check_package sources m name st ≡ ok st'
      → (resources : List Value) × (sources.render name ≡ ok resources)
        × Own resources st.owners st'.owners
  unfolding check_package
  check_package-Own name st st' h =
      let (resources, one, rest) = >>=-eq_ok (sources.render name >>= refuse_empty sources m) _ h in
      let (rendered, is_rendered, kept) = >>=-eq_ok (sources.render name) _ one in
      let same = refuse_empty-eq_ok rendered resources kept in
      (resources, is_rendered ∙ ap ok same, check_resources-Own name resources st st' rest)

-- No owner is there before the packages are looked at.
pub start-owners :
    (ks : List Key) (ps : Dict Package) (st : Checking)
    → (add_inputs ks no_locals >>= add_all_generated ps) ≡ ok st
    → st.owners ≡ []
start-owners ks ps st h =
    let (s, one, rest) = >>=-eq_ok (add_inputs ks no_locals) _ h in
    add_all_generated-owners ps s st rest ∙ add_inputs-owners ks no_locals s one
