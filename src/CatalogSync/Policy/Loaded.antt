-- ===== src/CatalogSync/Policy/Loaded.antt =====
-- sync.py: what load_policy accepts.
use k8s_stack_tooling.Prelude.{
  ◌≤◌, String, true, false, some, List, [], ◌∷◌, ◌≡◌, refl, subst, arith, not, ◌||◌, str_eq, eq_iff,
  ok, >>=-eq_ok, ok_injective, Bool-cases, Option-cases, inl, inr, All, Dict, length, ltb, ◌==◌,
  all,
}
use k8s_stack_tooling.Value.{
  Value, null, bool, num, str, arr, tup, obj, Items, nil, cons, Fields, end, field, has_key,
  fields_all, get_field, text_in, is_text, items_all,
}
use k8s_stack_tooling.CatalogSync.Objects.{object_of, present}
use k8s_stack_tooling.CatalogSync.Fetch.Pages.{AreDistinct}
use k8s_stack_tooling.CatalogSync.Policy.Schedules.{Schedule}
use k8s_stack_tooling.CatalogSync.Policy.Rates.{IsSchedule, pricing_schedule-IsSchedule}
use k8s_stack_tooling.CatalogSync.Policy.{
  Library, Policy, max_selected_models, set_of, selections_of, policy_selections, policy_fields,
  texts_in, override_of, overrides_of, policy_overrides, schedule_of, schedules_of,
  policy_pricing_models, provider_of, providers_of, policy_custom_pricing, policy_of,
  checked_policy, parsed_policy, load_policy, as_bool,
}
use k8s_stack_tooling.CatalogSync.Policy.Keys.{HasUniqueKeys, hooked_iff}

-- Different names that are not empty, 256 at most.
abbrev AreSelections : List String → Type 0
AreSelections names =
    AreDistinct names
    × (length names ≤ max_selected_models)
    × All (λ (s : String). str_eq s "" ≡ false) names

length-set_of : (names : List String) → length (set_of names) ≤ length names
unfolding set_of
length-set_of [] = omega arith
length-set_of (s ∷ ss) = ground (arith, length-set_of ss)

pub text_in-set_of : (s : String) (names : List String) → text_in s (set_of names) ≡ text_in s names
unfolding set_of
text_in-set_of s [] = refl
text_in-set_of s (x ∷ xs) = ground (arith, text_in-set_of s xs, text_in-set_of x xs, eq_iff s x)

set_of-AreDistinct :
    (names : List String) → length names ≡ length (set_of names) → AreDistinct names
unfolding set_of
set_of-AreDistinct [] h = tt
set_of-AreDistinct (s ∷ ss) h = elim (Bool-cases (text_in s ss)) [
  | inl again ↦ absurd (ground (arith, length-set_of ss, text_in-set_of s ss))
  | inr first ↦ (first, set_of-AreDistinct ss (ground (arith, text_in-set_of s ss)))
]

texts_in-nonempty :
    (xs : Items)
    → items_all is_text xs ≡ true
    → All (λ (s : String). str_eq s "" ≡ false) (texts_in xs)
unfolding is_text
texts_in-nonempty nil h = tt
texts_in-nonempty (cons (str s) xs) h = (ground arith, texts_in-nonempty xs (ground arith))
texts_in-nonempty (cons null xs) h = cc
texts_in-nonempty (cons (bool b) xs) h = cc
texts_in-nonempty (cons (num n) xs) h = cc
texts_in-nonempty (cons (arr ys) xs) h = cc
texts_in-nonempty (cons (tup ys) xs) h = cc
texts_in-nonempty (cons (obj d) xs) h = cc

policy_selections-AreSelections :
    (v : Value) (names : List String) → policy_selections v ≡ ok names → AreSelections names
unfolding policy_selections selections_of
policy_selections-AreSelections (arr xs) names h = elim (Bool-cases (items_all is_text xs)) [
  | inr other ↦ cc (rw other at h)
  | inl texts ↦ elim (Bool-cases (length (texts_in xs) == length (set_of (texts_in xs)))) [
    | inr twice ↦ cc (rw (texts, twice) at h)
    | inl once ↦ elim (Bool-cases (ltb max_selected_models (length (texts_in xs)))) [
      | inl many ↦ cc (rw (texts, once, many) at h)
      | inr few ↦
          let same : texts_in xs ≡ names = cc (rw (texts, once, few) at h) in
          subst AreSelections same (
            set_of-AreDistinct (texts_in xs) (ground arith),
            ground arith,
            texts_in-nonempty xs texts,
          )
    ]
  ]
]
policy_selections-AreSelections null names h = cc
policy_selections-AreSelections (bool b) names h = cc
policy_selections-AreSelections (num n) names h = cc
policy_selections-AreSelections (str s) names h = cc
policy_selections-AreSelections (tup xs) names h = cc
policy_selections-AreSelections (obj d) names h = cc

module _ (lib : Library) where
  abbrev AreOverrides : Dict String → Type 0
  AreOverrides d =
      All (λ (x : String × String). (str_eq x.0 "" ≡ false) × (lib.is_public_name x.1 ≡ true)) d

  abbrev AreSchedules : Dict Schedule → Type 0
  AreSchedules d =
      All (λ (x : String × Schedule). (lib.is_model_id x.0 ≡ true) × IsSchedule lib.numbers x.1) d

  abbrev AreProviders : Dict (Dict Schedule) → Type 0
  AreProviders d =
      All (λ (x : String × Dict Schedule). (lib.is_provider_id x.0 ≡ true) × AreSchedules x.1) d

  -- What the rest of the program may take for granted.
  pub record IsPolicy (p : Policy) : Type 0 where
    pub selections : AreSelections p.selected_models
    pub overrides : AreOverrides p.public_name_overrides
    pub negotiated : AreSchedules p.negotiated_pricing
    pub custom : AreProviders p.custom_pricing

  override_of-named :
      (key : String) (v : Value) (name : String)
      → override_of lib key v ≡ ok name
      → (str_eq key "" ≡ false) × (lib.is_public_name name ≡ true)
  override_of-named key (str s) name h = elim (Bool-cases (str_eq key "")) [
    | inl empty ↦ cc (rw empty at h)
    | inr given ↦ elim (Bool-cases (lib.is_public_name s)) [
      | inr bad ↦ cc (rw (given, bad) at h)
      | inl good ↦
          let same : s ≡ name = cc (rw (given, good) at h) in
          (given, subst (λ (x : String). lib.is_public_name x ≡ true) same good)
    ]
  ]
  override_of-named key null name h = cc
  override_of-named key (bool b) name h = cc
  override_of-named key (num n) name h = cc
  override_of-named key (arr xs) name h = cc
  override_of-named key (tup xs) name h = cc
  override_of-named key (obj d) name h = cc

  overrides_of-AreOverrides :
      (d : Fields) (r : Dict String) → overrides_of lib d ≡ ok r → AreOverrides r
  unfolding overrides_of
  overrides_of-AreOverrides end r h = let same : [] ≡ r = cc in subst AreOverrides same tt
  overrides_of-AreOverrides (field key v d) r h =
      let (name, one, h1) = >>=-eq_ok (override_of lib key v) _ h in
      let (more, others, h2) = >>=-eq_ok (overrides_of lib d) _ h1 in
      let same : (key, name) ∷ more ≡ r = cc h2 in
      subst AreOverrides same
        (override_of-named key v name one, overrides_of-AreOverrides d more others)

  schedule_of-IsSchedule :
      (model : String) (raw : Value) (s : Schedule)
      → schedule_of lib model raw ≡ ok s
      → (lib.is_model_id model ≡ true) × IsSchedule lib.numbers s
  schedule_of-IsSchedule model raw s h =
      elim (Bool-cases (str_eq model "" || not (lib.is_model_id model))) [
        | inl bad ↦ cc (rw bad at h)
        | inr good ↦ (ground arith, pricing_schedule-IsSchedule lib.numbers raw s (rw good at h))
      ]

  schedules_of-AreSchedules :
      (d : Fields) (r : Dict Schedule) → schedules_of lib d ≡ ok r → AreSchedules r
  unfolding schedules_of
  schedules_of-AreSchedules end r h = let same : [] ≡ r = cc in subst AreSchedules same tt
  schedules_of-AreSchedules (field model raw d) r h =
      let (s, one, h1) = >>=-eq_ok (schedule_of lib model raw) _ h in
      let (more, others, h2) = >>=-eq_ok (schedules_of lib d) _ h1 in
      let same : (model, s) ∷ more ≡ r = cc h2 in
      subst AreSchedules same
        (schedule_of-IsSchedule model raw s one, schedules_of-AreSchedules d more others)

  policy_pricing_models-AreSchedules :
      (v : Value) (r : Dict Schedule) → policy_pricing_models lib v ≡ ok r → AreSchedules r
  unfolding policy_pricing_models
  policy_pricing_models-AreSchedules v r h =
      let (d, is_d, h1) = >>=-eq_ok (object_of v) _ h in schedules_of-AreSchedules d r h1

  providers_of-AreProviders :
      (d : Fields) (r : Dict (Dict Schedule)) → providers_of lib d ≡ ok r → AreProviders r
  unfolding providers_of
  providers_of-AreProviders end r h = let same : [] ≡ r = cc in subst AreProviders same tt
  providers_of-AreProviders (field provider raw d) r h =
      let (s, one, h1) = >>=-eq_ok (provider_of lib provider raw) _ h in
      let (more, others, h2) = >>=-eq_ok (providers_of lib d) _ h1 in
      let same : (provider, s) ∷ more ≡ r = cc h2 in
      elim (Bool-cases (lib.is_provider_id provider)) [
        | inr bad ↦ cc (rw bad at one)
        | inl good ↦ subst AreProviders same (
          (good, policy_pricing_models-AreSchedules raw s (rw good at one)),
          providers_of-AreProviders d more others,
        )
      ]

  policy_of-IsPolicy : (d : Fields) (p : Policy) → policy_of lib d ≡ ok p → IsPolicy p
  unfolding policy_of policy_overrides policy_custom_pricing
  policy_of-IsPolicy d p h =
      let (v1, e1, h1) = >>=-eq_ok (present (get_field "selectedModels" d)) _ h in
      let (names, is_names, h2) = >>=-eq_ok (policy_selections v1) _ h1 in
      let (v2, e2, h3) = >>=-eq_ok (present (get_field "publicNameOverrides" d)) _ h2 in
      let (overrides, is_overrides, h4) = >>=-eq_ok (policy_overrides lib v2) _ h3 in
      let (d2, is_d2, overridden) = >>=-eq_ok (object_of v2) _ is_overrides in
      let (v3, e3, h5) = >>=-eq_ok (present (get_field "negotiatedPricing" d)) _ h4 in
      let (negotiated, is_negotiated, h6) = >>=-eq_ok (policy_pricing_models lib v3) _ h5 in
      let (v4, e4, h7) = >>=-eq_ok (present (get_field "customPricing" d)) _ h6 in
      let (custom, is_custom, h8) = >>=-eq_ok (policy_custom_pricing lib v4) _ h7 in
      let (d4, is_d4, provided) = >>=-eq_ok (object_of v4) _ is_custom in
      let (v5, e5, h9) = >>=-eq_ok (present (get_field "grantToAccessGroups" d)) _ h8 in
      let (grant, is_grant, h10) = >>=-eq_ok (as_bool v5) _ h9 in
      let same : record {
        selected_models = names;
        public_name_overrides = overrides;
        negotiated_pricing = negotiated;
        custom_pricing = custom;
        grant_to_access_groups = grant;
      }
          ≡ p =
        ok_injective h10 in
      subst IsPolicy same (record {
        selections = policy_selections-AreSelections v1 names is_names;
        overrides = overrides_of-AreOverrides d2 overrides overridden;
        negotiated = policy_pricing_models-AreSchedules v3 negotiated is_negotiated;
        custom = providers_of-AreProviders d4 custom provided;
      })

  -- A policy that load_policy returns comes from a document without a repeated key. Its selections
  -- are different, not empty and 256 at most; its public names, models and providers have names that
  -- match their patterns; every price stands for a decimal that is not negative and was given with
  -- at most six digits behind the point; every schedule prices input and output, and the thresholds
  -- of its tiers go up and stay below 2^31.
  pub load_policy-IsPolicy :
      (text : String) (p : Policy)
      → load_policy lib (some text) ≡ ok p
      → IsPolicy p × ((tree : Value) × (lib.loads text ≡ some tree) × HasUniqueKeys tree)
  unfolding load_policy checked_policy
  load_policy-IsPolicy text p h =
      let (raw, is_raw, h1) = >>=-eq_ok (parsed_policy lib (lib.loads text)) _ h in
      let (d, is_d, h2) = >>=-eq_ok (object_of raw) _ h1 in
      elim (Option-cases (lib.loads text)) [
        | inl broken ↦ cc (rw broken at is_raw)
        | inr (tree, is_tree) ↦
            (checked d h2, (tree, is_tree, ((hooked_iff tree raw).0 (rw is_tree at is_raw)).0))
      ]
    where
      checked : (d : Fields) → checked_policy lib d ≡ ok p → IsPolicy p
      checked d e = elim (Bool-cases (fields_all (λ k v. text_in k policy_fields) d)) [
        | inr unknown ↦ cc (rw unknown at e)
        | inl known ↦ elim (Bool-cases (all (λ k. has_key k d) policy_fields)) [
          | inr missing ↦ cc (rw (known, missing) at e)
          | inl full ↦ policy_of-IsPolicy d p (rw (known, full) at e)
        ]
      ]
