-- ===== src/Addons/Producers/Made.antt =====
-- addons/validation.py: where the outputs come from that `check` looks producers up in.
use k8s_stack_tooling.Prelude.{
  String, Bool, true, false, Option, none, some, List, [], ◌∷◌, ◌++◌, any, ◌≡◌, ◌⊎◌, refl, sym,
  subst, ◌∙◌, if◌then◌else◌, str_eq, eq_iff, ok, ◌>>=◌, >>=-eq_ok, guard-eq_ok, ok_injective,
  is_some, Bool-cases, inl, inr, ap, All, Dict, arith,
}
use k8s_stack_tooling.Value.{Value, null, bool, num, str, arr, tup, obj}
use k8s_stack_tooling.Addons.Resource.{CheckError, Identity, identity_eq, identity, Key, key_eq}
use k8s_stack_tooling.Addons.Producers.{find_named}
use k8s_stack_tooling.Addons.Producers.Consumed.{consume_templates-kept, check_helm_release-kept}
use k8s_stack_tooling.Addons.Producers.Owners.{refuse_empty-eq_ok}
use k8s_stack_tooling.Addons.Check.{
  HelmOutput, Package, Manifest, Checking, Sources, find_key, add_output, add_inputs, add_generated,
  add_all_generated, produced, add_produced, consume_templates, check_helm_release, check_resource,
  check_resources, check_package, refuse_empty,
}

abbrev pub IsOneOf : {A : Type 0} → A → List A → Type 0
IsOneOf a [] = ⊥
IsOneOf a (b ∷ bs) = (a ≡ b) ⊎ IsOneOf a bs

module _ (sources : Sources) (m : Manifest) where
  -- A Helm output that the package declares.
  abbrev pub IsDeclared : String → Key → Type 0
  IsDeclared name k =
      (p : Package) × (o : HelmOutput) × IsOneOf (name, p) m.packages
      × IsOneOf o p.helm_outputs
      × (o.output ≡ k)

  -- What a resource that is rendered for the package makes.
  abbrev pub IsRendered : String → Key → Type 0
  IsRendered name k =
      (resources : List Value) × (resource : Value) × (i : Identity) × (sources.render name
        ≡ ok resources)
      × IsOneOf resource resources
      × (identity sources.group_of resource ≡ ok i)
      × (produced i resource ≡ ok (some k))

  -- An input of the addon, or what the package makes.
  abbrev pub IsMade : Key → Option String → Type 0
  IsMade k none = IsOneOf k m.inputs
  IsMade k (some name) = IsDeclared name k ⊎ IsRendered name k

  abbrev pub AreMade : List (Key × Option String) → Type 0
  AreMade rows = All (λ (x : Key × Option String). IsMade x.0 x.1) rows

  AreMade-append :
      (rows : List (Key × Option String)) (k : Key) (p : Option String)
      → AreMade rows
      → IsMade k p
      → AreMade (rows ++ ((k, p) ∷ []))
  AreMade-append [] k p all it = (it, tt)
  AreMade-append (x ∷ rows) k p (one, all) it = (one, AreMade-append rows k p all it)

  add_output-AreMade :
      (k : Key) (p : Option String) (e : CheckError) (st st' : Checking)
      → IsMade k p
      → AreMade st.outputs
      → add_output k p e st ≡ ok st'
      → AreMade st'.outputs
  add_output-AreMade k p e st st' it all h =
      let (new, added) = guard-eq_ok (is_some (find_key k st.outputs)) _ _ h in
      subst (λ (s : Checking). AreMade s.outputs) (ok_injective added)
        (AreMade-append st.outputs k p all it)

  add_inputs-AreMade :
      (ks : List Key) (st st' : Checking)
      → ((k : Key) → IsOneOf k ks → IsOneOf k m.inputs)
      → AreMade st.outputs
      → add_inputs ks st ≡ ok st'
      → AreMade st'.outputs
  unfolding add_inputs
  add_inputs-AreMade [] st st' inside all h =
      subst (λ (s : Checking). AreMade s.outputs) (ok_injective h) all
  add_inputs-AreMade (k ∷ ks) st st' inside all h =
      let (s, one, rest) = >>=-eq_ok (add_output k none _ st) _ h in
      add_inputs-AreMade ks s st' (λ j later. inside j (inr later))
        (add_output-AreMade k none _ st s (inside k (inl refl)) all one) rest

  add_generated-AreMade :
      (name : String) (p : Package) (os : List HelmOutput) (st st' : Checking)
      → IsOneOf (name, p) m.packages
      → ((o : HelmOutput) → IsOneOf o os → IsOneOf o p.helm_outputs)
      → AreMade st.outputs
      → add_generated name os st ≡ ok st'
      → AreMade st'.outputs
  unfolding add_generated
  add_generated-AreMade name p [] st st' listed inside all h =
      subst (λ (s : Checking). AreMade s.outputs) (ok_injective h) all
  add_generated-AreMade name p (o ∷ os) st st' listed inside all h =
      let (s, one, rest) = >>=-eq_ok (add_output o.output (some name) _ st) _ h in
      add_generated-AreMade name p os _ st' listed (λ j later. inside j (inr later))
        (add_output-AreMade o.output (some name) _ st s
          (inl (p, o, listed, inside o (inl refl), refl)) all one)
        rest

  add_all_generated-AreMade :
      (ps : Dict Package) (st st' : Checking)
      → ((x : String × Package) → IsOneOf x ps → IsOneOf x m.packages)
      → AreMade st.outputs
      → add_all_generated ps st ≡ ok st'
      → AreMade st'.outputs
  unfolding add_all_generated
  add_all_generated-AreMade [] st st' inside all h =
      subst (λ (s : Checking). AreMade s.outputs) (ok_injective h) all
  add_all_generated-AreMade ((name, p) ∷ ps) st st' inside all h =
      let (s, one, rest) = >>=-eq_ok (add_generated name p.helm_outputs st) _ h in
      add_all_generated-AreMade ps s st' (λ x later. inside x (inr later))
        (add_generated-AreMade name p p.helm_outputs st s (inside (name, p) (inl refl)) (λ o q. q)
          all one)
        rest

  pub start-AreMade :
      (st st' : Checking)
      → AreMade st.outputs
      → (add_inputs m.inputs st >>= add_all_generated m.packages) ≡ ok st'
      → AreMade st'.outputs
  start-AreMade st st' all h =
      let (s, one, rest) = >>=-eq_ok (add_inputs m.inputs st) _ h in
      add_all_generated-AreMade m.packages s st' (λ x q. q)
        (add_inputs-AreMade m.inputs st s (λ k q. q) all one) rest

  add_produced-AreMade :
      (name : String) (output : Option Key) (st st' : Checking)
      → ((k : Key) → output ≡ some k → IsMade k (some name))
      → AreMade st.outputs
      → add_produced name output st ≡ ok st'
      → AreMade st'.outputs
  add_produced-AreMade name none st st' it all h =
      subst (λ (s : Checking). AreMade s.outputs) (ok_injective h) all
  add_produced-AreMade name (some k) st st' it all h =
      add_output-AreMade k (some name) _ st st' (it k refl) all h

  check_resource-AreMade :
      (name : String) (resources : List Value) (resource : Value) (st st' : Checking)
      → sources.render name ≡ ok resources
      → IsOneOf resource resources
      → AreMade st.outputs
      → check_resource sources m name resource st ≡ ok st'
      → AreMade st'.outputs
  unfolding check_resource
  check_resource-AreMade name resources resource st st' rendered inside all h =
      let (i, is_i, h1) = >>=-eq_ok (identity sources.group_of resource) _ h in
      let (new, h2) = guard-eq_ok (any (identity_eq i) st.owners) _ _ h1 in
      let (output, two, h3) = >>=-eq_ok (produced i resource) _ h2 in
      let (s, three, h4) =
        >>=-eq_ok (add_produced name output (record st { owners = i ∷ st.owners })) _ h3 in
      let (other, h5) = guard-eq_ok (str_eq i.kind "Secret") _ _ h4 in
      let (t, four, h6) = >>=-eq_ok (consume_templates name i resource s) _ h5 in
      let made =
        add_produced-AreMade name output _ s
          (λ k is_k. inr (resources, resource, i, rendered, inside, is_i, two ∙ ap ok is_k)) all
          three in
      subst AreMade
        (sym (
          last i t (str_eq i.kind "HelmRelease") h6
          ∙ consume_templates-kept outputs_of (λ c x. refl) (λ rs x. refl) name i resource s t
              four))
        made
    where
      outputs_of : Checking → List (Key × Option String)
      outputs_of s = s.outputs

      last :
          (i : Identity) (t : Checking) (b : Bool)
          → (if b then check_helm_release sources m name i resource t else ok t) ≡ ok st'
          → st'.outputs ≡ t.outputs
      last i t true h =
          check_helm_release-kept outputs_of (λ c x. refl) (λ rs x. refl) sources m name i resource
            t st' h
      last i t false h = sym (ap outputs_of (ok_injective h))

  check_resources-AreMade :
      (name : String) (resources rest : List Value) (st st' : Checking)
      → sources.render name ≡ ok resources
      → ((r : Value) → IsOneOf r rest → IsOneOf r resources)
      → AreMade st.outputs
      → check_resources sources m name rest st ≡ ok st'
      → AreMade st'.outputs
  unfolding check_resources
  check_resources-AreMade name resources [] st st' rendered inside all h =
      subst (λ (s : Checking). AreMade s.outputs) (ok_injective h) all
  check_resources-AreMade name resources (r ∷ rest) st st' rendered inside all h =
      let (s, one, more) = >>=-eq_ok (check_resource sources m name r st) _ h in
      check_resources-AreMade name resources rest s st' rendered (λ x later. inside x (inr later))
        (check_resource-AreMade name resources r st s rendered (inside r (inl refl)) all one) more

  pub check_package-AreMade :
      (name : String) (st st' : Checking)
      → AreMade st.outputs
      → check_package sources m name st ≡ ok st'
      → AreMade st'.outputs
  unfolding check_package
  check_package-AreMade name st st' all h =
      let (resources, one, rest) = >>=-eq_ok (sources.render name >>= refuse_empty sources m) _ h in
      let (rendered, is_rendered, kept) = >>=-eq_ok (sources.render name) _ one in
      check_resources-AreMade name resources resources st st'
        (is_rendered ∙ ap ok (refuse_empty-eq_ok sources m rendered resources kept)) (λ r q. q) all
        rest

  key_eq-eq : (j k : Key) → key_eq j k ≡ true → j ≡ k
  key_eq-eq (a, b, c) (a', b', c') h =
      let one : a ≡ a' = ground (arith, eq_iff a a') in
      let two : b ≡ b' = ground (arith, eq_iff b b') in
      let three : c ≡ c' = ground (arith, eq_iff c c') in cc (one, two, three)

  find_key-IsMade :
      (k : Key) (rows : List (Key × Option String)) (p : Option String)
      → AreMade rows
      → find_key k rows ≡ some p
      → IsMade k p
  find_key-IsMade k [] p all h = cc h
  find_key-IsMade k ((j, q) ∷ rows) p (one, all) h = elim (Bool-cases (key_eq j k)) [
    | inl same ↦
        let is_p : q ≡ p = cc (rw same at h) in
        subst (λ (x : Option String). IsMade k x) is_p
          (subst (λ (x : Key). IsMade x q) (key_eq-eq j k same) one)
    | inr other ↦ find_key-IsMade k rows p all (rw other at h)
  ]

  -- What is found under a name is made.
  pub find_named-IsMade :
      (kind namespace : String) (v : Value) (rows : List (Key × Option String)) (p : Option String)
      → AreMade rows
      → find_named kind namespace v rows ≡ some p
      → (name : String) × (v ≡ str name) × IsMade (kind, namespace, name) p
  find_named-IsMade kind namespace (str name) rows p all h =
      (name, refl, find_key-IsMade (kind, namespace, name) rows p all h)
  find_named-IsMade kind namespace null rows p all h = cc h
  find_named-IsMade kind namespace (bool b) rows p all h = cc h
  find_named-IsMade kind namespace (num n) rows p all h = cc h
  find_named-IsMade kind namespace (arr xs) rows p all h = cc h
  find_named-IsMade kind namespace (tup xs) rows p all h = cc h
  find_named-IsMade kind namespace (obj d) rows p all h = cc h
