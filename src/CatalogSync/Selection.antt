-- ===== src/CatalogSync/Selection.antt =====
-- sync.py: _normalized_models, and the selection of a policy in _validated_selected_ids.
pub mod Normalized
mod Examples
use k8s_stack_tooling.Prelude.{
  ℕ, String, Bool, true, false, Option, none, some, List, [], ◌∷◌, ltb, length, all, if◌then◌else◌,
  Result, ok, err, ◌>>=◌, is_some, not, Dict, get_item, set_item,
}
use k8s_stack_tooling.Value.{Value, Fields}
use k8s_stack_tooling.CatalogSync.Objects.{
  SyncError, duplicate_id, too_many_models, unknown_model, object_of, required_string,
}
use k8s_stack_tooling.CatalogSync.Policy.{Policy, max_selected_models, set_of}

-- The loop of _normalized_models.
unfoldable pub normalize_from : List Value → Dict Fields → Result SyncError (Dict Fields)
normalize_from [] normalized = ok normalized
normalize_from (raw ∷ raws) normalized = object_of raw >>= λ model.
    required_string model "id" >>= λ upstream_id.
    if is_some (get_item upstream_id normalized)
    then err duplicate_id
    else normalize_from raws (set_item upstream_id model normalized)

unfoldable pub normalized_models : List Value → Result SyncError (Dict Fields)
normalized_models models = normalize_from models []

-- _validated_selected_ids; the set has no repetitions.
unfoldable pub validated_selected_ids : Policy → Dict Fields → Result SyncError (List String)
validated_selected_ids policy normalized =
    let selected = set_of policy.selected_models in
    if ltb max_selected_models (length policy.selected_models)
    then err too_many_models
    else if not (all (λ i. is_some (get_item i normalized)) selected)
    then err unknown_model
    else ok selected
