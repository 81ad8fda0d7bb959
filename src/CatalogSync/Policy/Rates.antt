-- ===== src/CatalogSync/Policy/Rates.antt =====
-- sync.py: the schedules that _pricing_schedule accepts.
use k8s_stack_tooling.Prelude.{
  ℕ, ◌≤◌, String, true, false, Option, none, some, List, [], ◌∷◌, ◌≡◌, refl, subst, arith, ◌&&◌,
  eq_iff, ok, ◌>>=◌, >>=-eq_ok, Bool-cases, Option-cases, inl, inr, All, Dict, get_item, is_some,
  ltb,
}
use k8s_stack_tooling.Value.{
  Value, null, bool, num, str, arr, tup, obj, Items, nil, cons, Fields, end, field, has_key,
  fields_all, get_field, text_in, keys_are,
}
use k8s_stack_tooling.CatalogSync.Objects.{object_of, present}
use k8s_stack_tooling.CatalogSync.Policy.Schedules.{
  Numbers, Decimal, Tier, Schedule, max_context_threshold, threshold_of, is_after, decimal_of,
  significant_digits, render_rate, rate_of, rates_of, rate_field_order, schedule_rates, tier_of,
  tiers_of, all_tiers_of, pricing_schedule,
}

module _ (numbers : Numbers) where
  -- The text stands for a decimal that is not negative, which was given with at most six significant
  -- digits behind the point.
  pub record IsRate (rate : String) : Type 0 where
    pub raw : Value
    pub value : Decimal
    pub is_value : decimal_of numbers raw ≡ ok value
    pub not_negative : value.is_negative ≡ false
    pub fraction : significant_digits numbers raw ≤ 6
    pub rendered : render_rate numbers value ≡ rate

  rate_of-IsRate : (raw : Value) (r : String) → rate_of numbers raw ≡ ok r → IsRate r
  unfolding rate_of
  rate_of-IsRate raw r h = elim (Bool-cases (ltb 6 (significant_digits numbers raw))) [
    | inl long ↦ cc (rw long at h)
    | inr short ↦
        let (d, e, h1) = >>=-eq_ok (decimal_of numbers raw) _ (rw short at h) in
        elim (Bool-cases d.is_negative) [
          | inl negative ↦ cc (rw negative at h1)
          | inr other ↦ record {
            raw = raw;
            value = d;
            is_value = e;
            not_negative = other;
            fraction = ground arith;
            rendered = cc (rw other at h1);
          }
        ]
  ]

  -- Prices for the tokens that go in and for those that come out, at least.
  pub record AreRates (rates : Dict String) : Type 0 where
    pub all_rates : All (λ (x : String × String). IsRate x.1) rates
    pub input : is_some (get_item "input" rates) ≡ true
    pub output : is_some (get_item "output" rates) ≡ true

  has_key-get_field : (k : String) (d : Fields) → has_key k d ≡ is_some (get_field k d)
  has_key-get_field k end = refl
  has_key-get_field k (field j v d) = ground (arith, has_key-get_field k d)

  -- Each rate is one, and none of these keys is lost.
  abbrev AreRatesOf : List String → Fields → Dict String → Type 0
  AreRatesOf keys d r =
      All (λ (x : String × String). IsRate x.1) r
      × ((k : String) → text_in k keys ≡ true → has_key k d ≡ true → is_some (get_item k r) ≡ true)

  rates_of-AreRatesOf :
      (keys : List String) (d : Fields) (r : Dict String)
      → rates_of numbers keys d ≡ ok r
      → AreRatesOf keys d r
  unfolding rates_of
  rates_of-AreRatesOf [] d r h =
      let same : [] ≡ r = cc in
      subst (λ (x : Dict String). AreRatesOf [] d x) same (tt, λ k f. cc f)
  rates_of-AreRatesOf (key ∷ keys) d r h = elim (Option-cases (get_field key d)) [
    | inl missing ↦
        let (all, keyed) = rates_of-AreRatesOf keys d r (rw missing at h) in
        (all, λ k listed has. keyed k (ground (arith, has_key-get_field key d, eq_iff k key)) has)
    | inr (raw, is_raw) ↦
        let (x, one, h1) = >>=-eq_ok (rate_of numbers raw) _ (rw is_raw at h) in
        let (more, others, h2) = >>=-eq_ok (rates_of numbers keys d) _ h1 in
        let (all, keyed) = rates_of-AreRatesOf keys d more others in
        let same : (key, x) ∷ more ≡ r = cc in
        subst (λ (y : Dict String). AreRatesOf (key ∷ keys) d y) same
          (
            (rate_of-IsRate raw x one, all),
            λ k listed has. ground (arith, keyed k, eq_iff k key, eq_iff key k),
          )
  ]

  schedule_rates-AreRates :
      (raw : Value) (r : Dict String) → schedule_rates numbers raw ≡ ok r → AreRates r
  unfolding schedule_rates
  schedule_rates-AreRates raw r h =
      let (d, is_d, h1) = >>=-eq_ok (object_of raw) _ h in
      elim (Bool-cases (fields_all (λ k v. text_in k rate_field_order) d)) [
        | inr unknown ↦ cc (rw unknown at h1)
        | inl known ↦ elim (Bool-cases (has_key "input" d && has_key "output" d)) [
          | inr missing ↦ cc (rw (known, missing) at h1)
          | inl both ↦
              let (all, keyed) =
                rates_of-AreRatesOf rate_field_order d r (rw (known, both) at h1) in
              record {
                all_rates = all;
                input = keyed "input" refl (ground arith);
                output = keyed "output" refl (ground arith);
              }
        ]
      ]

  -- The thresholds go up, and stay below 2^31.
  abbrev AreTiers : Option ℕ → List Tier → Type 0
  AreTiers previous [] = Unit
  AreTiers previous (t ∷ ts) =
      (is_after previous t.context_over ≡ true)
      × (t.context_over ≤ max_context_threshold)
      × AreRates t.rates
      × AreTiers (some t.context_over) ts

  threshold_of-bound : (v : Value) (n : ℕ) → threshold_of v ≡ ok n → n ≤ max_context_threshold
  unfolding threshold_of
  threshold_of-bound (num m) n h = elim (Bool-cases (ltb max_context_threshold m)) [
    | inl big ↦ cc (rw big at h)
    | inr small ↦
        let same : m ≡ n = cc (rw small at h) in
        subst (λ (k : ℕ). k ≤ max_context_threshold) same (ground arith)
  ]
  threshold_of-bound null n h = cc
  threshold_of-bound (bool b) n h = cc
  threshold_of-bound (str s) n h = cc
  threshold_of-bound (arr xs) n h = cc
  threshold_of-bound (tup xs) n h = cc
  threshold_of-bound (obj d) n h = cc

  tier_of-IsTier :
      (previous : Option ℕ) (raw : Value) (t : Tier)
      → tier_of numbers previous raw ≡ ok t
      → (is_after previous t.context_over ≡ true)
        × (t.context_over ≤ max_context_threshold)
        × AreRates t.rates
  unfolding tier_of
  tier_of-IsTier previous raw t h =
      let (d, is_d, h1) = >>=-eq_ok (object_of raw) _ h in
      elim (Bool-cases (keys_are ("contextOver" ∷ "rates" ∷ []) d)) [
        | inr other ↦ cc (rw other at h1)
        | inl both ↦
            let (n, is_n, h2) =
              >>=-eq_ok (present (get_field "contextOver" d) >>= threshold_of) _ (rw both at h1) in
            let (v, is_v, bound) = >>=-eq_ok (present (get_field "contextOver" d)) _ is_n in
            elim (Bool-cases (is_after previous n)) [
              | inr unordered ↦ cc (rw unordered at h2)
              | inl after ↦
                  let (r, is_r, h3) =
                    >>=-eq_ok (present (get_field "rates" d) >>= schedule_rates numbers) _
                      (rw after at h2) in
                  let (w, is_w, rated) = >>=-eq_ok (present (get_field "rates" d)) _ is_r in
                  let same : record { context_over = n; rates = r } ≡ t = cc h3 in
                  subst
                    (λ (x : Tier).
                      (is_after previous x.context_over ≡ true)
                      × (x.context_over ≤ max_context_threshold)
                      × AreRates x.rates)
                    same (after, threshold_of-bound v n bound, schedule_rates-AreRates w r rated)
            ]
      ]

  tiers_of-AreTiers :
      (previous : Option ℕ) (xs : Items) (ts : List Tier)
      → tiers_of numbers previous xs ≡ ok ts
      → AreTiers previous ts
  unfolding tiers_of
  tiers_of-AreTiers previous nil ts h = let same : [] ≡ ts = cc in subst (AreTiers previous) same tt
  tiers_of-AreTiers previous (cons raw xs) ts h =
      let (t, one, h1) = >>=-eq_ok (tier_of numbers previous raw) _ h in
      let (more, others, h2) = >>=-eq_ok (tiers_of numbers (some t.context_over) xs) _ h1 in
      let (after, bound, rated) = tier_of-IsTier previous raw t one in
      let same : t ∷ more ≡ ts = cc h2 in
      subst (AreTiers previous) same
        (after, bound, rated, tiers_of-AreTiers (some t.context_over) xs more others)

  abbrev AreTiersIfAny : Option (List Tier) → Type 0
  AreTiersIfAny none = Unit
  AreTiersIfAny (some ts) = AreTiers none ts

  all_tiers_of-AreTiersIfAny :
      (raw : Option Value) (ts : Option (List Tier))
      → all_tiers_of numbers raw ≡ ok ts
      → AreTiersIfAny ts
  all_tiers_of-AreTiersIfAny none ts h = let same : none ≡ ts = cc in subst AreTiersIfAny same tt
  all_tiers_of-AreTiersIfAny (some null) ts h =
      let same : none ≡ ts = cc in subst AreTiersIfAny same tt
  all_tiers_of-AreTiersIfAny (some (arr xs)) ts h =
      let (l, e, h1) = >>=-eq_ok (tiers_of numbers none xs) _ h in
      let same : some l ≡ ts = cc h1 in subst AreTiersIfAny same (tiers_of-AreTiers none xs l e)
  all_tiers_of-AreTiersIfAny (some (bool b)) ts h = cc
  all_tiers_of-AreTiersIfAny (some (num n)) ts h = cc
  all_tiers_of-AreTiersIfAny (some (str s)) ts h = cc
  all_tiers_of-AreTiersIfAny (some (tup xs)) ts h = cc
  all_tiers_of-AreTiersIfAny (some (obj d)) ts h = cc

  abbrev pub IsSchedule : Schedule → Type 0
  IsSchedule s = AreRates s.rates × AreTiersIfAny s.tiers

  pub pricing_schedule-IsSchedule :
      (raw : Value) (s : Schedule) → pricing_schedule numbers raw ≡ ok s → IsSchedule s
  unfolding pricing_schedule
  pricing_schedule-IsSchedule raw s h =
      let (d, is_d, h1) = >>=-eq_ok (object_of raw) _ h in
      elim (Bool-cases (fields_all (λ k v. text_in k ("rates" ∷ "tiers" ∷ [])) d)) [
        | inr unknown ↦ cc (rw unknown at h1)
        | inl known ↦
            let (r, is_r, h2) =
              >>=-eq_ok (present (get_field "rates" d) >>= schedule_rates numbers) _
                (rw known at h1) in
            let (v, is_v, rated) = >>=-eq_ok (present (get_field "rates" d)) _ is_r in
            let (ts, is_ts, h3) = >>=-eq_ok (all_tiers_of numbers (get_field "tiers" d)) _ h2 in
            let same : record { rates = r; tiers = ts } ≡ s = cc h3 in
            subst IsSchedule same (
              schedule_rates-AreRates v r rated,
              all_tiers_of-AreTiersIfAny (get_field "tiers" d) ts is_ts,
            )
      ]
