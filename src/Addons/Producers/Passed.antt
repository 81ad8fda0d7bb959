-- ===== src/Addons/Producers/Passed.antt =====
-- addons/validation.py: what `check` has made sure of when it passes.
use k8s_stack_tooling.Prelude.{
  ℕ, suc, String, Bool, true, false, none, some, List, [], ◌∷◌, map, ◌≡◌, ◌≢◌, refl, sym, ap, subst,
  arith, not, if◌then◌else◌, Result, ok, err, ◌>>=◌, Dict, keys_of, length, All,
}
use k8s_stack_tooling.Addons.Graph.{Visited, visit_all, visit, visit_packages}
use k8s_stack_tooling.Addons.Graph.Fuel.{IsOrder, IsVisit, visit-IsVisit, count_closed-nil}
use k8s_stack_tooling.Addons.Graph.Order.{IsAcyclic, accepted-IsAcyclic}
use k8s_stack_tooling.Addons.Resource.{CheckError, same_package_names, Identity}
use k8s_stack_tooling.Addons.Check.{
  Package, Manifest, Consumer, Checking, Sources, no_locals, add_inputs, add_all_generated,
  check_package,
}
use k8s_stack_tooling.Addons.Producers.{
  Checked, after_result, after, graph_of, check_generated, check_packages, check_all_consumers,
  check_producers, check, are_different,
}
use k8s_stack_tooling.Addons.Producers.After.{
  after_visit-eq_ok, after_result-eq_ok, after-eq_ok, after_result-ends, after-ends,
  after_visit-ends,
}
use k8s_stack_tooling.Addons.Producers.Supplied.{
  IsSupplied, check_all_consumers-IsSupplied, check_producers-ends,
}
use k8s_stack_tooling.Addons.Producers.Made.{AreMade, start-AreMade, check_package-AreMade}
use k8s_stack_tooling.Addons.Producers.References.{OfPackage, check_package-All}
use k8s_stack_tooling.Addons.Producers.Owners.{PackagesOwn, check_package-Own, start-owners}

keys_of-graph_of : (m : Manifest) → keys_of (graph_of m) ≡ keys_of m.packages
keys_of-graph_of m = go m.packages
  where
    go :
        (ps : Dict Package)
        → keys_of (map (λ (x : String × Package). (x.0, x.1.depends_on)) ps) ≡ keys_of ps
    go [] = refl
    go ((name, p) ∷ ps) = ap (λ (ks : List String). name ∷ ks) (go ps)

module _ (sources : Sources) (m : Manifest) where
  pub record IsSound (st : Checking) : Type 0 where
    pub acyclic : IsAcyclic (graph_of m)
    pub owners : PackagesOwn sources m (keys_of m.packages) [] st.owners
    pub supplied : All (OfPackage sources (IsSupplied sources m)) (keys_of m.packages)

  abbrev rounds : ℕ
  rounds = suc (length (graph_of m))

  check_packages-visit_all :
      (names visited : List String) (st : Checking) (r : List String × Checking)
      → check_packages sources m names visited st ≡ some (ok r)
      → visit_all (visit (graph_of m) rounds []) visited names ≡ some (ok r.0)
  unfolding check_packages
  check_packages-visit_all [] visited st r h =
      let same : (visited, st) ≡ r = cc h in ap (λ (x : List String × Checking). some (ok x.0)) same
  check_packages-visit_all (name ∷ names) visited st r h =
      let (w, one, h1) = after_visit-eq_ok (visit (graph_of m) rounds [] visited name) _ r h in
      let (s, two, h2) = after_result-eq_ok (check_package sources m name st) _ r h1 in
      rw one (check_packages-visit_all names w s r h2)

  check_packages-PackagesOwn :
      (names visited : List String) (st : Checking) (r : List String × Checking)
      → check_packages sources m names visited st ≡ some (ok r)
      → PackagesOwn sources m names st.owners r.1.owners
  unfolding check_packages
  check_packages-PackagesOwn [] visited st r h =
      let same : (visited, st) ≡ r = cc h in ap (λ (x : List String × Checking). x.1.owners) same
  check_packages-PackagesOwn (name ∷ names) visited st r h =
      let (w, one, h1) = after_visit-eq_ok (visit (graph_of m) rounds [] visited name) _ r h in
      let (s, two, h2) = after_result-eq_ok (check_package sources m name st) _ r h1 in
      let (resources, rendered, own) = check_package-Own sources m name st s two in
      (resources, rendered, (s.owners, own, check_packages-PackagesOwn names w s r h2))

  check_packages-AreMade :
      (names visited : List String) (st : Checking) (r : List String × Checking)
      → AreMade sources m st.outputs
      → check_packages sources m names visited st ≡ some (ok r)
      → AreMade sources m r.1.outputs
  unfolding check_packages
  check_packages-AreMade [] visited st r all h =
      let same : (visited, st) ≡ r = cc h in
      subst (λ (x : List String × Checking). AreMade sources m x.1.outputs) same all
  check_packages-AreMade (name ∷ names) visited st r all h =
      let (w, one, h1) = after_visit-eq_ok (visit (graph_of m) rounds [] visited name) _ r h in
      let (s, two, h2) = after_result-eq_ok (check_package sources m name st) _ r h1 in
      check_packages-AreMade names w s r (check_package-AreMade sources m name st s all two) h2

  check_packages-All :
      (Q : Consumer → Type 0) (names visited : List String) (st : Checking)
      (r : List String × Checking)
      → check_packages sources m names visited st ≡ some (ok r)
      → All Q r.1.consumers
      → All Q st.consumers × All (OfPackage sources Q) names
  unfolding check_packages
  check_packages-All Q [] visited st r h all =
      let same : (visited, st) ≡ r = cc h in
      (subst (λ (x : List String × Checking). All Q x.1.consumers) (sym same) all, tt)
  check_packages-All Q (name ∷ names) visited st r h all =
      let (w, one, h1) = after_visit-eq_ok (visit (graph_of m) rounds [] visited name) _ r h in
      let (s, two, h2) = after_result-eq_ok (check_package sources m name st) _ r h1 in
      let (between, others) = check_packages-All Q names w s r h2 all in
      let (before, it) = check_package-All Q sources m name st s two between in
      (before, (it, others))

  visit-IsOrder :
      (visited : List String) (name : String) (r : Visited)
      → IsVisit (graph_of m) visited (name ∷ []) r
      → (r ≢ none) × ((w : List String) → r ≡ some (ok w) → IsOrder (graph_of m) w)
  visit-IsOrder visited name none v = absurd v
  visit-IsOrder visited name (some (err e)) v = (λ k. cc k, λ w k. cc k)
  visit-IsOrder visited name (some (ok x)) (o, kept, there) =
      (λ k. cc k, λ w k. let same : x ≡ w = cc k in subst (IsOrder (graph_of m)) same o)

  check_packages-ends :
      (names visited : List String) (st : Checking)
      → IsOrder (graph_of m) visited
      → check_packages sources m names visited st ≢ none
  unfolding check_packages
  check_packages-ends [] visited st o = λ k. cc k
  check_packages-ends (name ∷ names) visited st o =
      let called =
        visit-IsVisit (graph_of m) rounds [] visited name
          (omega (arith, count_closed-nil (graph_of m) (keys_of (graph_of m)) (graph_of m) refl))
          o in
      let (ends, ordered) =
        visit-IsOrder visited name (visit (graph_of m) rounds [] visited name) called in
      after_visit-ends (visit (graph_of m) rounds [] visited name) _ ends (λ w e.
        after_result-ends (check_package sources m name st) _
          (λ st' e'. check_packages-ends names w st' (ordered w e)))

  -- All names are visited when the loop over the packages is done.
  check_packages-accepted :
      (st : Checking) (r : List String × Checking)
      → check_packages sources m (keys_of m.packages) [] st ≡ some (ok r)
      → visit_packages (graph_of m) ≡ some (ok r.0)
  unfolding visit_packages
  check_packages-accepted st r h =
      subst (λ (ks : List String). visit_all (visit (graph_of m) rounds []) [] ks ≡ some (ok r.0))
        (sym (keys_of-graph_of m)) (check_packages-visit_all (keys_of m.packages) [] st r h)

  check_producers-eq_ok :
      (visited : List String) (st st' : Checking)
      → check_producers sources m (visited, st) ≡ some (ok st')
      → (st ≡ st') × (check_all_consumers sources m visited st st.consumers ≡ some (ok tt))
  check_producers-eq_ok visited st st' h =
      let (u, one, h1) =
        after_result-eq_ok (check_generated st.generated st.helm_releases) _ st' h in
      let (v, two, h2) =
        after-eq_ok (check_all_consumers sources m visited st st.consumers) _ st' h1 in
      (cc h2, two)

  -- `check` ends. When it passes, the dependencies of the packages have no cycle and are all declared;
  -- each resource rendered for a package has an identity that no resource before it has, and none is a
  -- Secret; and each reference of a rendered resource has what it names: the ConfigMap of each template
  -- of an ExternalSecret, and of a HelmRelease each source of values that is not optional and the
  -- Secret of the password. What it names is an input; or it is a Helm output that a package declares,
  -- or a rendered resource of a package makes it, and that package is its own or one that it requires.
  pub check-IsSound :
      (check sources m ≢ none) × ((st : Checking) → check sources m ≡ some (ok st) → IsSound st)
  unfolding check
  check-IsSound = (
    ends (not (are_different (keys_of m.packages))),
    λ st. sound (not (are_different (keys_of m.packages))) st,
  )
    where
      begin : Result CheckError Checking
      begin = add_inputs m.inputs no_locals >>= add_all_generated m.packages

      loops : Checking → Checked Checking
      loops st =
          after (check_packages sources m (keys_of m.packages) [] st) (check_producers sources m)

      ends :
          (b : Bool)
          → (if b then some (err same_package_names) else after_result begin loops) ≢ none
      ends true = λ k. cc k
      ends false = after_result-ends begin loops (λ st e.
          after-ends (check_packages sources m (keys_of m.packages) [] st)
            (check_producers sources m) (check_packages-ends (keys_of m.packages) [] st tt)
            (λ r e'. check_producers-ends sources m r.0 r.1 (check_packages-accepted st r e')))

      sound :
          (b : Bool) (st : Checking)
          → (if b then some (err same_package_names) else after_result begin loops) ≡ some (ok st)
          → IsSound st
      sound true st h = cc h
      sound false st h =
          let (s, begun, h1) = after_result-eq_ok begin loops st h in
          let (r, looped, h2) =
            after-eq_ok (check_packages sources m (keys_of m.packages) [] s)
              (check_producers sources m) st h1 in
          let accepted = check_packages-accepted s r looped in
          let (same, all) = check_producers-eq_ok r.0 r.1 st h2 in
          subst IsSound same (record {
            acyclic = (accepted-IsAcyclic (graph_of m) r.0 accepted).0;
            owners =
                subst
                  (λ (before : List Identity).
                    PackagesOwn sources m (keys_of m.packages) before r.1.owners)
                  (start-owners m.inputs m.packages s begun)
                  (check_packages-PackagesOwn (keys_of m.packages) [] s r looped);
            supplied =
                (check_packages-All (IsSupplied sources m) (keys_of m.packages) [] s r looped (
                  check_all_consumers-IsSupplied sources m r.0 r.1 accepted r.1.consumers
                    (check_packages-AreMade (keys_of m.packages) [] s r
                      (start-AreMade sources m no_locals s tt begun) looped)
                    all)).1;
          })
