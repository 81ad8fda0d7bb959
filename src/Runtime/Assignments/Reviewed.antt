-- ===== src/Runtime/Assignments/Reviewed.antt =====
-- What load_deployment accepts.
use k8s_stack_tooling.Prelude.{
  String, true, false, Option, none, some, [], ◌∷◌, ◌≡◌, refl, sym, ap, subst, not, ◌||◌, is_some,
  str_eq, Result, ok, err, >>=-eq_ok, Bool-cases, inl, inr, Dict, get_item, All,
}
use k8s_stack_tooling.Runtime.Assignments.{
  Assignment, Deployment, Preset, DeploymentError, PackageData, alias_categories, recipe,
  services_of, is_local, with_runtime, migrate, reviewed_by, review, review_all, deployment_or,
  is_other, load_deployment,
}

module _ (pkg : PackageData) where
  -- The alias has a category and the choice a reviewed recipe, which is the only one for its model
  -- and variant and whose runtime it records.
  pub record IsReviewed (alias : String) (c : Assignment) : Type 0 where
    pub known : is_some (get_item alias alias_categories) ≡ true
    pub preset : Preset
    pub found : recipe pkg alias c.model_id c.variant_id ≡ ok preset
    pub recorded : c.runtime ≡ some preset.runtime

  -- Its model and whether it is enabled are not changed.
  abbrev pub Keeps : Assignment → Assignment → Type 0
  Keeps choice c = (c.model_id ≡ choice.model_id) × (c.enabled ≡ choice.enabled)

  migrate-IsReviewed :
      (alias : String) (choice c : Assignment) (e : DeploymentError) (o : Option Preset)
      → is_some (get_item alias alias_categories) ≡ true
      → migrate pkg alias choice e o ≡ ok c
      → IsReviewed alias c × Keeps choice c
  migrate-IsReviewed alias choice c e none known h = cc
  migrate-IsReviewed alias choice c e (some r) known h =
      elim (Bool-cases (
        not (str_eq alias "vlm-documents")
        || not (is_local pkg choice.runtime)
        || not (str_eq r.model_id choice.model_id))) [
          | inl other ↦ cc (rw other at h)
          | inr fits ↦
              let (p, found, h1) =
                >>=-eq_ok (recipe pkg alias choice.model_id r.variant_id) _ (rw fits at h) in
              let same : with_runtime pkg (record choice { variant_id = r.variant_id }) p ≡ c =
                cc in
              subst (λ (x : Assignment). IsReviewed alias x × Keeps choice x) same
                (record { known = known; preset = p; found = found; recorded = refl }, (refl, refl))
        ]

  reviewed_by-IsReviewed :
      (alias : String) (choice c : Assignment) (r : Result DeploymentError Preset)
      → is_some (get_item alias alias_categories) ≡ true
      → recipe pkg alias choice.model_id choice.variant_id ≡ r
      → reviewed_by pkg alias choice r ≡ ok c
      → IsReviewed alias c × Keeps choice c
  reviewed_by-IsReviewed alias choice c (ok p) known e h =
      let same : with_runtime pkg choice p ≡ c = cc in
      subst (λ (x : Assignment). IsReviewed alias x × Keeps choice x) same
        (record { known = known; preset = p; found = e; recorded = refl }, (refl, refl))
  reviewed_by-IsReviewed alias choice c (err x) known e h =
      migrate-IsReviewed alias choice c x (get_item alias (services_of pkg.service_recipes)) known h

  review-IsReviewed :
      (alias : String) (choice c : Assignment)
      → review pkg alias choice ≡ ok c
      → IsReviewed alias c × Keeps choice c
  unfolding review
  review-IsReviewed alias choice c h =
      elim (Bool-cases (is_some (get_item alias alias_categories))) [
        | inl known ↦
            reviewed_by-IsReviewed alias choice c
              (recipe pkg alias choice.model_id choice.variant_id) known refl (rw known at h)
        | inr unknown ↦ cc (rw unknown at h)
      ]

  review_again : (alias : String) (c : Assignment) → IsReviewed alias c → review pkg alias c ≡ ok c
  unfolding review
  review_again alias c r =
      rw (r.known, r.found) (ap (λ o. ok (record c { runtime = o })) (sym r.recorded))

  abbrev pub AllReviewed : Dict Assignment → Type 0
  AllReviewed d = All (λ (x : String × Assignment). IsReviewed x.0 x.1) d

  review_all-AllReviewed :
      (d e : Dict Assignment) → review_all pkg d ≡ ok e → AllReviewed e × (review_all pkg e ≡ ok e)
  unfolding review_all
  review_all-AllReviewed [] e h =
      let same : [] ≡ e = cc in
      subst (λ (x : Dict Assignment). AllReviewed x × (review_all pkg x ≡ ok x)) same (tt, refl)
  review_all-AllReviewed ((alias, choice) ∷ d) e h =
      let (c, one, h1) = >>=-eq_ok (review pkg alias choice) _ h in
      let (cs, more, h2) = >>=-eq_ok (review_all pkg d) _ h1 in
      let (reviewed, kept) = review-IsReviewed alias choice c one in
      let (all, again) = review_all-AllReviewed d cs more in
      let same : (alias, c) ∷ cs ≡ e = cc in
      subst (λ (x : Dict Assignment). AllReviewed x × (review_all pkg x ≡ ok x)) same
        ((reviewed, all), rw (review_again alias c reviewed, again) refl)

-- A deployment that load_deployment returns is one of the Docker context that was asked for; every
-- choice in it has a reviewed recipe of its alias, whose runtime it records; and it is what
-- load_deployment returns of a file that holds it.
pub load_deployment-IsReviewed :
    (pkg : PackageData) (file : Option Deployment) (target : Option String) (d : Deployment)
    → load_deployment pkg file target ≡ ok d
    → (is_other pkg target d.target ≡ false)
      × AllReviewed pkg d.assignments
      × (load_deployment pkg (some d) target ≡ ok d)
unfolding load_deployment
load_deployment-IsReviewed pkg file target d h =
    elim (Bool-cases (is_other pkg target (deployment_or pkg target file).target)) [
      | inl other ↦ cc (rw other at h)
      | inr own ↦
          let (e, all, h1) =
            >>=-eq_ok (review_all pkg (deployment_or pkg target file).assignments) _
              (rw own at h) in
          let (reviewed, again) =
            review_all-AllReviewed pkg (deployment_or pkg target file).assignments e all in
          let same : record (deployment_or pkg target file) { assignments = e } ≡ d = cc in
          subst
            (λ (x : Deployment).
              (is_other pkg target x.target ≡ false)
              × AllReviewed pkg x.assignments
              × (load_deployment pkg (some x) target ≡ ok x))
            same (own, reviewed, rw (own, again) refl)
    ]
