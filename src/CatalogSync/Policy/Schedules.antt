-- ===== src/CatalogSync/Policy/Schedules.antt =====
-- sync.py: _pricing_schedule, _schedule_rates, _threshold and _decimal. The numbers of a document are
-- naturals here; the tests of a threshold for negative, broken and infinite numbers are left out.
use k8s_stack_tooling.Prelude.{
  ℕ, String, Bool, true, Option, none, some, List, [], ◌∷◌, ltb, max, not, ◌&&◌, ◌||◌,
  if◌then◌else◌, Result, ok, err, ◌>>=◌, Dict,
}
use k8s_stack_tooling.Value.{
  Value, null, num, str, arr, Items, nil, cons, Fields, get_field, has_key, fields_all, text_in,
  keys_are,
}
use k8s_stack_tooling.CatalogSync.Objects.{
  SyncError, unknown_field, missing_field, invalid_field, invalid_decimal, invalid_threshold,
  unordered_tiers, object_of, present,
}

abbrev max_rate_digits : ℕ
max_rate_digits = 64

abbrev max_rate_integer_digits : ℕ
max_rate_integer_digits = 12

abbrev pub max_context_threshold : ℕ
max_context_threshold = 2147483647

abbrev pub rate_field_order : List String
rate_field_order =
    "input" ∷ "output" ∷ "cacheRead" ∷ "cacheWrite" ∷ "reasoning" ∷ "inputAudio" ∷ "outputAudio"
    ∷ []

-- A `Decimal`, by what the source asks of it; `rendered` is `format(value, "f")`.
pub record Decimal : Type 0 where
  pub is_finite : Bool
  pub is_negative : Bool
  pub is_zero : Bool
  pub rendered : String

-- What the source takes from the libraries, of the text of a number: DECIMAL_PATTERN, the number of its
-- digits, of the digits before the point without the zeros in front, and of those behind the last
-- point without the zeros at the end; whether it has a point; Decimal, where `none` raises; and
-- `rstrip("0").rstrip(".")`.
pub record Numbers : Type 0 where
  pub is_decimal : String → Bool
  pub count_digits : String → ℕ
  pub integer_digits : String → ℕ
  pub fraction_digits : String → ℕ
  pub has_point : String → Bool
  pub decimal : String → Option Decimal
  pub strip_zeros : String → String

pub record Tier : Type 0 where
  pub context_over : ℕ
  pub rates : Dict String

pub record Schedule : Type 0 where
  pub rates : Dict String
  pub tiers : Option (List Tier)

-- _threshold
unfoldable pub threshold_of : Value → Result SyncError ℕ
threshold_of (num n) = if ltb max_context_threshold n then err invalid_threshold else ok n
threshold_of _ = err invalid_threshold

-- `threshold > previous_threshold`, where `none` is -1
abbrev pub is_after : Option ℕ → ℕ → Bool
is_after none n = true
is_after (some previous) n = ltb previous n

module _ (numbers : Numbers) where
  abbrev finite_decimal : Option Decimal → Result SyncError Decimal
  finite_decimal none = err invalid_decimal
  finite_decimal (some d) = if not d.is_finite then err invalid_decimal else ok d

  -- _decimal
  unfoldable pub decimal_of : Value → Result SyncError Decimal
  decimal_of (str s) =
      if not (numbers.is_decimal s)
        || ltb max_rate_digits (numbers.count_digits s)
        || ltb max_rate_integer_digits (max 1 (numbers.integer_digits s))
      then err invalid_decimal
      else finite_decimal (numbers.decimal s)
  decimal_of _ = err invalid_decimal

  abbrev pub significant_digits : Value → ℕ
  significant_digits (str s) = if numbers.has_point s then numbers.fraction_digits s else 0
  significant_digits _ = 0

  abbrev pub render_rate : Decimal → String
  render_rate d =
      if d.is_zero
      then "0"
      else if numbers.has_point d.rendered
      then numbers.strip_zeros d.rendered
      else d.rendered

  -- One rate of _schedule_rates.
  unfoldable pub rate_of : Value → Result SyncError String
  rate_of raw =
      if ltb 6 (significant_digits raw)
      then err invalid_decimal
      else decimal_of raw >>= λ d. if d.is_negative then err invalid_decimal else ok (render_rate d)

  abbrev with_rate :
      String → Option Value → Result SyncError (Dict String) → Result SyncError (Dict String)
  with_rate key none rest = rest
  with_rate key (some raw) rest = rate_of raw >>= λ r. rest >>= λ more. ok ((key, r) ∷ more)

  -- The loop of _schedule_rates.
  unfoldable pub rates_of : List String → Fields → Result SyncError (Dict String)
  rates_of [] d = ok []
  rates_of (key ∷ keys) d = with_rate key (get_field key d) (rates_of keys d)

  abbrev checked_rates : Fields → Result SyncError (Dict String)
  checked_rates d =
      if not (fields_all (λ k v. text_in k rate_field_order) d)
      then err unknown_field
      else if not (has_key "input" d && has_key "output" d)
      then err missing_field
      else rates_of rate_field_order d

  -- _schedule_rates
  unfoldable pub schedule_rates : Value → Result SyncError (Dict String)
  schedule_rates raw = object_of raw >>= checked_rates

  -- The body of the loop over the tiers.
  unfoldable pub tier_of : Option ℕ → Value → Result SyncError Tier
  tier_of previous raw = object_of raw >>= λ d.
      if not (keys_are ("contextOver" ∷ "rates" ∷ []) d)
      then err invalid_field
      else present (get_field "contextOver" d) >>= threshold_of >>= λ n.
          if not (is_after previous n)
          then err unordered_tiers
          else present (get_field "rates" d) >>= schedule_rates >>= λ rates.
              ok (record { context_over = n; rates = rates })

  unfoldable pub tiers_of : Option ℕ → Items → Result SyncError (List Tier)
  tiers_of previous nil = ok []
  tiers_of previous (cons raw xs) =
      tier_of previous raw >>= λ t. tiers_of (some t.context_over) xs >>= λ ts. ok (t ∷ ts)

  abbrev pub all_tiers_of : Option Value → Result SyncError (Option (List Tier))
  all_tiers_of none = ok none
  all_tiers_of (some null) = ok none
  all_tiers_of (some (arr xs)) = tiers_of none xs >>= λ ts. ok (some ts)
  all_tiers_of (some _) = err invalid_field

  abbrev checked_schedule : Fields → Result SyncError Schedule
  checked_schedule d =
      if not (fields_all (λ k v. text_in k ("rates" ∷ "tiers" ∷ [])) d)
      then err unknown_field
      else present (get_field "rates" d) >>= schedule_rates >>= λ rates.
          all_tiers_of (get_field "tiers" d) >>= λ tiers.
          ok (record { rates = rates; tiers = tiers })

  -- _pricing_schedule
  unfoldable pub pricing_schedule : Value → Result SyncError Schedule
  pricing_schedule raw = object_of raw >>= checked_schedule
