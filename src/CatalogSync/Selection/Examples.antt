-- ===== src/CatalogSync/Selection/Examples.antt =====
-- sync.py: _normalized_models and _validated_selected_ids on a catalogue of one model.
use k8s_stack_tooling.Prelude.{false, some, [], ◌∷◌, ◌≡◌, refl, ok, Dict, keys_of}
use k8s_stack_tooling.Value.{obj, Fields}
use k8s_stack_tooling.CatalogSync.Objects.{
  page_fields, add_page_records, add_ids, object_of, required_string,
}
use k8s_stack_tooling.CatalogSync.Fetch.{
  Fetched, fetch_models, fetch_loop, fetch_round, fetch_page, response_payload, read_body,
  safe_source_url, require_same_origin,
}
use k8s_stack_tooling.CatalogSync.Fetch.Pages.{AreDistinct}
use k8s_stack_tooling.CatalogSync.Policy.{Policy, set_of}
use k8s_stack_tooling.CatalogSync.Samples.{model, network}
use k8s_stack_tooling.CatalogSync.Selection.{normalized_models, validated_selected_ids}
use k8s_stack_tooling.CatalogSync.Selection.Normalized.{AreNormalized, fetch_models-normalized}

abbrev fetched_one : Fetched
fetched_one = record { requested = "models" ∷ []; result = ok (obj model ∷ []) }

fetches : fetch_models network "models" ≡ some fetched_one
unfolding fetch_models fetch_loop fetch_round fetch_page response_payload read_body page_fields
    add_page_records add_ids object_of required_string safe_source_url require_same_origin
fetches = refl

fetch_models-normalized_example :
    (d : Dict Fields) × (normalized_models (obj model ∷ []) ≡ ok d)
    × AreNormalized (obj model ∷ []) d
    × AreDistinct (keys_of d)
fetch_models-normalized_example =
    fetch_models-normalized network "models" fetched_one (obj model ∷ []) fetches refl

abbrev policy : Policy
policy = record {
  selected_models = "a/b" ∷ [];
  public_name_overrides = [];
  negotiated_pricing = [];
  custom_pricing = [];
  grant_to_access_groups = false;
}

selects : validated_selected_ids policy (("a/b", model) ∷ []) ≡ ok ("a/b" ∷ [])
unfolding validated_selected_ids set_of
selects = refl
