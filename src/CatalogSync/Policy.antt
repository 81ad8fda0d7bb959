-- ===== src/CatalogSync/Policy.antt =====
-- sync.py: load_policy, _unique_object and the `_policy_*` functions. json.loads gives the pairs of
-- each object to `_unique_object`, the inner objects first; here it gives a value whose objects still
-- have all pairs.
pub mod Schedules
pub mod Keys
pub mod Rates
pub mod Loaded
mod Examples
use k8s_stack_tooling.Prelude.{
  ℕ, zero, suc, String, Bool, true, false, Option, none, some, List, [], ◌∷◌, ◌==◌, ltb, length,
  not, ◌&&◌, ◌||◌, if◌then◌else◌, str_eq, Result, ok, err, ◌>>=◌, all, Dict,
}
use k8s_stack_tooling.Value.{
  Value, null, bool, num, str, arr, tup, obj, Items, nil, cons, Fields, end, field, get_field,
  has_key, fields_all, is_text, items_all, text_in,
}
use k8s_stack_tooling.CatalogSync.Objects.{
  SyncError, duplicate_key, not_json, not_readable, unknown_field, missing_field, invalid_field,
  duplicate_model, too_many_models, invalid_name, object_of, present,
}
use k8s_stack_tooling.CatalogSync.Policy.Schedules.{Numbers, Schedule, pricing_schedule}

abbrev pub max_selected_models : ℕ
max_selected_models = 256

-- What the source takes from the libraries: json.loads, where `none` is a JSONDecodeError, and the
-- three patterns.
pub record Library : Type 0 where
  pub loads : String → Option Value
  pub is_public_name : String → Bool
  pub is_provider_id : String → Bool
  pub is_model_id : String → Bool
  pub numbers : Numbers

pub record Policy : Type 0 where
  pub selected_models : List String
  pub public_name_overrides : Dict String
  pub negotiated_pricing : Dict Schedule
  pub custom_pricing : Dict (Dict Schedule)
  pub grant_to_access_groups : Bool

abbrev pub with_field : String → Value → Fields → Fields
with_field k v end = field k v end
with_field k v (field j w d) = field j w (with_field k v d)

-- The loop of _unique_object.
unfoldable pub add_unique : Fields → Fields → Result SyncError Fields
add_unique result end = ok result
add_unique result (field k v pairs) =
    let rest = add_unique (with_field k v result) pairs in
    if has_key k result then err duplicate_key else rest

unfoldable pub unique_object : Fields → Result SyncError Fields
unique_object pairs = add_unique end pairs

-- The hook, at every object of a document.
unfoldable mutual
  pub hooked : Value → Result SyncError Value
  hooked null = ok null
  hooked (bool b) = ok (bool b)
  hooked (num n) = ok (num n)
  hooked (str s) = ok (str s)
  hooked (arr xs) = hooked_items xs >>= λ ys. ok (arr ys)
  hooked (tup xs) = hooked_items xs >>= λ ys. ok (tup ys)
  hooked (obj d) = hooked_fields d >>= λ e. unique_object e >>= λ u. ok (obj u)

  pub hooked_items : Items → Result SyncError Items
  hooked_items nil = ok nil
  hooked_items (cons v xs) = hooked v >>= λ w. hooked_items xs >>= λ ys. ok (cons w ys)

  pub hooked_fields : Fields → Result SyncError Fields
  hooked_fields end = ok end
  hooked_fields (field k v d) = hooked v >>= λ w. hooked_fields d >>= λ e. ok (field k w e)

abbrev pub texts_in : Items → List String
texts_in nil = []
texts_in (cons (str s) xs) = s ∷ texts_in xs
texts_in (cons _ xs) = texts_in xs

-- `set(texts)`, as a list without repetitions
unfoldable pub set_of : List String → List String
set_of [] = []
set_of (s ∷ ss) = let rest = set_of ss in if text_in s rest then rest else s ∷ rest

-- The tests of _policy_selections on the list.
unfoldable pub selections_of : List String → Result SyncError (List String)
selections_of names =
    if not (length names == length (set_of names))
    then err duplicate_model
    else if ltb max_selected_models (length names)
    then err too_many_models
    else ok names

unfoldable pub policy_selections : Value → Result SyncError (List String)
policy_selections (arr xs) =
    if not (items_all is_text xs) then err invalid_field else selections_of (texts_in xs)
policy_selections _ = err invalid_field

-- `expected_fields`
abbrev pub policy_fields : List String
policy_fields =
    "selectedModels" ∷ "publicNameOverrides" ∷ "negotiatedPricing" ∷ "customPricing"
    ∷ "grantToAccessGroups" ∷ []

abbrev pub as_bool : Value → Result SyncError Bool
as_bool (bool b) = ok b
as_bool _ = err invalid_field

module _ (lib : Library) where
  abbrev pub override_of : String → Value → Result SyncError String
  override_of key (str s) =
      if str_eq key ""
      then err invalid_field
      else if not (lib.is_public_name s)
      then err invalid_name
      else ok s
  override_of key _ = err invalid_name

  -- The loop of _policy_overrides.
  unfoldable pub overrides_of : Fields → Result SyncError (Dict String)
  overrides_of end = ok []
  overrides_of (field key v d) =
      override_of key v >>= λ name. overrides_of d >>= λ rest. ok ((key, name) ∷ rest)

  unfoldable pub policy_overrides : Value → Result SyncError (Dict String)
  policy_overrides raw = object_of raw >>= overrides_of

  abbrev pub schedule_of : String → Value → Result SyncError Schedule
  schedule_of model raw =
      if str_eq model "" || not (lib.is_model_id model)
      then err invalid_name
      else pricing_schedule lib.numbers raw

  -- The loop of _policy_pricing_models.
  unfoldable pub schedules_of : Fields → Result SyncError (Dict Schedule)
  schedules_of end = ok []
  schedules_of (field model raw d) =
      schedule_of model raw >>= λ s. schedules_of d >>= λ rest. ok ((model, s) ∷ rest)

  unfoldable pub policy_pricing_models : Value → Result SyncError (Dict Schedule)
  policy_pricing_models raw = object_of raw >>= schedules_of

  abbrev pub provider_of : String → Value → Result SyncError (Dict Schedule)
  provider_of provider raw =
      if not (lib.is_provider_id provider) then err invalid_name else policy_pricing_models raw

  -- The loop of _policy_custom_pricing.
  unfoldable pub providers_of : Fields → Result SyncError (Dict (Dict Schedule))
  providers_of end = ok []
  providers_of (field provider raw d) =
      provider_of provider raw >>= λ s. providers_of d >>= λ rest. ok ((provider, s) ∷ rest)

  unfoldable pub policy_custom_pricing : Value → Result SyncError (Dict (Dict Schedule))
  policy_custom_pricing raw = object_of raw >>= providers_of

  -- load_policy from the values of the fields on.
  unfoldable pub policy_of : Fields → Result SyncError Policy
  policy_of d = do
    raw_selections ← present (get_field "selectedModels" d)
    selections ← policy_selections raw_selections
    raw_overrides ← present (get_field "publicNameOverrides" d)
    overrides ← policy_overrides raw_overrides
    raw_negotiated ← present (get_field "negotiatedPricing" d)
    negotiated ← policy_pricing_models raw_negotiated
    raw_custom ← present (get_field "customPricing" d)
    custom ← policy_custom_pricing raw_custom
    raw_grant ← present (get_field "grantToAccessGroups" d)
    grant ← as_bool raw_grant
    ok (record {
      selected_models = selections;
      public_name_overrides = overrides;
      negotiated_pricing = negotiated;
      custom_pricing = custom;
      grant_to_access_groups = grant;
    })

  unfoldable pub checked_policy : Fields → Result SyncError Policy
  checked_policy d =
      if not (fields_all (λ k v. text_in k policy_fields) d)
      then err unknown_field
      else if not (all (λ k. has_key k d) policy_fields)
      then err missing_field
      else policy_of d

  abbrev pub parsed_policy : Option Value → Result SyncError Value
  parsed_policy none = err not_json
  parsed_policy (some tree) = hooked tree

  -- load_policy, of the text of the file; `none` is an OSError.
  unfoldable pub load_policy : Option String → Result SyncError Policy
  load_policy none = err not_readable
  load_policy (some text) =
      parsed_policy (lib.loads text) >>= λ raw. object_of raw >>= checked_policy
