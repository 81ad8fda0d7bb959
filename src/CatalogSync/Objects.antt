-- ===== src/CatalogSync/Objects.antt =====
-- sync.py: CatalogSyncError, _object, _required_string, _page_fields and _add_page_records.
use k8s_stack_tooling.Prelude.{
  ℕ, String, Option, none, some, List, [], ◌∷◌, ◌++◌, ltb, length, if◌then◌else◌, str_eq, Result,
  ok, err, ◌>>=◌,
}
use k8s_stack_tooling.Value.{
  Value, null, bool, num, str, arr, tup, obj, Items, nil, cons, Fields, get_field, text_in,
}

abbrev pub max_raw_records : ℕ
max_raw_records = 5000

-- CatalogSyncError, by what it reports.
pub data SyncError : Type 0 where
  unsafe_url too_many_pages cycle unreachable redirected too_large not_json not_object missing_field
        invalid_field total_changed too_many_records duplicate_id wrong_total changes_origin
        duplicate_key unknown_field duplicate_model too_many_models invalid_name invalid_decimal
        invalid_threshold unordered_tiers not_readable unknown_model :
      SyncError

-- _object
unfoldable pub object_of : Value → Result SyncError Fields
object_of (obj d) = ok d
object_of null = err not_object
object_of (bool b) = err not_object
object_of (num n) = err not_object
object_of (str s) = err not_object
object_of (arr xs) = err not_object
object_of (tup xs) = err not_object

abbrev pub text_of : Option Value → Result SyncError String
text_of (some (str s)) = if str_eq s "" then err invalid_field else ok s
text_of _ = err invalid_field

-- _required_string
unfoldable pub required_string : Fields → String → Result SyncError String
required_string model key = text_of (get_field key model)

abbrev list_of : Items → List Value
list_of nil = []
list_of (cons v xs) = v ∷ list_of xs

-- A value that the page must have.
abbrev pub present : Option Value → Result SyncError Value
present none = err missing_field
present (some v) = ok v

abbrev as_list : Value → Result SyncError (List Value)
as_list (arr xs) = ok (list_of xs)
as_list _ = err invalid_field

abbrev as_total : Option Value → Result SyncError ℕ
as_total (some (num n)) = ok n
as_total _ = err invalid_field

abbrev as_next : Value → Result SyncError (Option String)
as_next null = ok none
as_next (str s) = if str_eq s "" then err invalid_field else ok (some s)
as_next _ = err invalid_field

-- _page_fields
unfoldable pub page_fields : Fields → Result SyncError (List Value × ℕ × Option String)
page_fields page = do
  shown ← present (get_field "data" page)
  records ← as_list shown
  total ← as_total (get_field "total_count" page)
  raw_links ← present (get_field "links" page)
  links ← object_of raw_links
  raw_next ← present (get_field "next" links)
  following ← as_next raw_next
  ok (records, total, following)

-- The loop of _add_page_records over the records of a page.
unfoldable pub add_ids : List Value → List String → Result SyncError (List String)
add_ids [] ids = ok ids
add_ids (raw ∷ raws) ids = do
  model ← object_of raw
  model_id ← required_string model "id"
  if text_in model_id ids then err duplicate_id else add_ids raws (model_id ∷ ids)

-- _add_page_records; the ids come in the order of their addition, the last first.
unfoldable pub add_page_records :
    List Value → List Value → List String → ℕ → Result SyncError (List Value × List String)
add_page_records records models ids expected =
    let all_models = models ++ records in
    if ltb max_raw_records (length all_models)
    then err too_many_records
    else add_ids records ids >>= λ more.
        if ltb expected (length more) then err wrong_total else ok (all_models, more)
