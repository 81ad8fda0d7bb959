-- ===== src/CatalogSync/Policy/Examples.antt =====
-- sync.py: load_policy on small documents.
use k8s_stack_tooling.Prelude.{
  ℕ, String, true, false, some, [], ◌∷◌, ◌≡◌, refl, if◌then◌else◌, str_eq, ok, err,
}
use k8s_stack_tooling.Value.{
  Value, bool, num, str, arr, obj, nil, cons, end, field, is_text, keys_are,
}
use k8s_stack_tooling.CatalogSync.Objects.{duplicate_key, object_of}
use k8s_stack_tooling.CatalogSync.Policy.Schedules.{
  Numbers, Schedule, threshold_of, decimal_of, rate_of, rates_of, schedule_rates, tier_of, tiers_of,
  pricing_schedule,
}
use k8s_stack_tooling.CatalogSync.Policy.{
  Library, Policy, add_unique, unique_object, hooked, set_of, selections_of, policy_selections,
  overrides_of, policy_overrides, schedules_of, policy_pricing_models, providers_of,
  policy_custom_pricing, policy_of, checked_policy, load_policy,
}
use k8s_stack_tooling.CatalogSync.Policy.Keys.{HasUniqueKeys, load_policy-duplicate}
use k8s_stack_tooling.CatalogSync.Policy.Loaded.{IsPolicy, load_policy-IsPolicy}

abbrev numbers : Numbers
numbers = record {
  is_decimal = λ (s : String). true;
  count_digits = λ (s : String). 2;
  integer_digits = λ (s : String). 1;
  fraction_digits = λ (s : String). 1;
  has_point = λ (s : String). true;
  decimal = λ (s : String).
      some (record { is_finite = true; is_negative = false; is_zero = false; rendered = s });
  strip_zeros = λ (s : String). s;
}

abbrev rates : Value
rates = obj (field "input" (str "0.5") (field "output" (str "1.5") end))

abbrev tier : ℕ → Value
tier n = obj (field "contextOver" (num n) (field "rates" rates end))

abbrev schedule : Value
schedule =
    obj (field "rates" rates (field "tiers" (arr (cons (tier 1000) (cons (tier 2000) nil))) end))

abbrev document : Value
document = obj (
    field "selectedModels" (arr (cons (str "a/b") (cons (str "a/c") nil))) (
      field "publicNameOverrides" (obj (field "a/b" (str "b") end)) (
        field "negotiatedPricing" (obj (field "a/b" schedule end)) (
          field "customPricing" (obj (field "own" (obj (field "m" schedule end)) end))
            (field "grantToAccessGroups" (bool true) end)))))

-- One document, and one that has a key twice in an inner object.
abbrev lib : Library
lib = record {
  loads = λ (text : String). some (
      if str_eq text "twice"
      then obj (
          field "publicNameOverrides" (obj (field "a/b" (str "b") (field "a/b" (str "c") end))) end)
      else document);
  is_public_name = λ (s : String). true;
  is_provider_id = λ (s : String). true;
  is_model_id = λ (s : String). true;
  numbers = numbers;
}

abbrev priced : Schedule
priced =
    let r = ("input", "0.5") ∷ ("output", "1.5") ∷ [] in
    record {
      rates = r;
      tiers = some (
          record { context_over = 1000; rates = r }
          ∷ record { context_over = 2000; rates = r }
          ∷ []);
    }

abbrev policy : Policy
policy = record {
  selected_models = "a/b" ∷ "a/c" ∷ [];
  public_name_overrides = ("a/b", "b") ∷ [];
  negotiated_pricing = ("a/b", priced) ∷ [];
  custom_pricing = ("own", ("m", priced) ∷ []) ∷ [];
  grant_to_access_groups = true;
}

loads : load_policy lib (some "once") ≡ ok policy
unfolding load_policy checked_policy policy_of policy_selections selections_of set_of
    policy_overrides overrides_of policy_pricing_models schedules_of policy_custom_pricing
    providers_of pricing_schedule schedule_rates rates_of rate_of decimal_of tiers_of tier_of
    threshold_of hooked unique_object add_unique object_of is_text keys_are
loads = refl

load_policy-IsPolicy_example :
    IsPolicy lib policy × ((tree : Value) × (lib.loads "once" ≡ some tree) × HasUniqueKeys tree)
load_policy-IsPolicy_example = load_policy-IsPolicy lib "once" policy loads

load_policy-duplicate_example : load_policy lib (some "twice") ≡ err duplicate_key
load_policy-duplicate_example =
    load_policy-duplicate lib "twice"
      (obj
        (field "publicNameOverrides" (obj (field "a/b" (str "b") (field "a/b" (str "c") end))) end))
      refl (λ (((inner, outer), rest), top). cc (outer.0))
