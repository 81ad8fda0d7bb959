-- ===== src/Adapter/Policy.antt =====
-- policy.py: the rules, flatten, structured, severity and the fields that a rule is tried on.
pub mod Evaluate
pub mod First
pub mod Flattening
pub mod Exclusion
mod Examples
use k8s_stack_tooling.Prelude.{
  str_append, ℕ, String, Bool, true, false, Option, none, some, List, [], ◌∷◌, not, ◌&&◌, ◌||◌, any,
  all, is_some, if◌then◌else◌, str_eq,
}
use k8s_stack_tooling.Value.{
  Value, null, bool, num, str, arr, tup, obj, Items, nil, Fields, end, field, get_field, has_key,
  text_in,
}
use k8s_stack_tooling.Adapter.Types.{Record, Scope, Action, report, log_only, is_log_only, Decision}

pub data SourceFormat : Type 0 where
  json agentgateway_mcp : SourceFormat

-- Rule, without `priority`, which only orders the rules. A dict of choices is the list of its items.
pub record Rule : Type 0 where
  pub id : String
  pub enabled : Bool
  pub source_format : SourceFormat
  pub match_on : List (String × List Value)
  pub action : Action
  pub group_by : List String
  pub drop_fields : List String
  pub count_unit : String
  pub title : Option String
  pub explanation : String
  pub level : Option String

-- What the rules take from the libraries and from the modules on texts: json.loads as `read_json`,
-- whether the canonical text of a value can be encoded, json.dumps as `canonical`, `str.lower`, the
-- text of a number; the first two parts of `grouping_parts`, the readers of gateway records, and
-- the texts shown (`explain` renders and cuts at 2048).
pub record Texts : Type 0 where
  pub read_json : String → Option Value
  pub encodes : Value → Bool
  pub canonical : Value → String
  pub lower : String → String
  pub show : ℕ → String
  pub envelope : String → String × String
  pub gateway_mcp : String → Option Fields
  pub gateway_identity : Fields → Fields
  pub stateless_get_noise : Fields → Bool
  pub render : String → Fields → String
  pub explain : String → Fields → String
  pub readable : String → Option Fields → String
  pub title_text : String → String

-- `d[key] = value`
abbrev pub set_field : String → Value → Fields → Fields
set_field key v end = field key v end
set_field key v (field k w fs) =
    if str_eq k key then field k v fs else field k w (set_field key v fs)

-- `d.update(e)`
abbrev pub update_fields : Fields → Fields → Fields
update_fields d end = d
update_fields d (field k v fs) = update_fields (set_field k v d) fs

-- `a.keys() & b.keys()`, as a test
abbrev pub share_keys : Fields → Fields → Bool
share_keys a end = false
share_keys a (field k v fs) = has_key k a || share_keys a fs

-- `{k: v for k, v in d.items() if keep(k)}`
abbrev pub filter_keys : (String → Bool) → Fields → Fields
filter_keys keep end = end
filter_keys keep (field k v fs) =
    if keep k then field k v (filter_keys keep fs) else filter_keys keep fs

abbrev pub context_fields : List String
context_fields =
    "environment" ∷ "application" ∷ "service" ∷ "namespace" ∷ "container" ∷ "failure_type" ∷ "level"
    ∷ []

-- `isinstance(value, (str, dict, list)) and not value`
abbrev pub is_blank : Value → Bool
is_blank (str s) = str_eq s ""
is_blank (arr nil) = true
is_blank (obj end) = true
is_blank _ = false

-- `path in fields and fields[path] is not None and not (...)`
abbrev is_given : Option Value → Bool
is_given none = false
is_given (some null) = false
is_given (some v) = not (is_blank v)

module _ (texts : Texts) where
  abbrev pub path_of : String → String → String
  path_of prefix key = str_append prefix (str_append "." key)

  -- The body of the loop of `flatten`, with the flattened children of the item.
  abbrev pub add_children : String → Value → Fields → Option Fields → Option Fields
  add_children path v result none = none
  add_children path v result (some children) =
      let with_item = set_field path v result in
      if share_keys with_item children then none else some (update_fields with_item children)

  abbrev pub add_field : String → Value → Option Fields → Option Fields → Option Fields
  add_field path v none children = none
  add_field path v (some result) children =
      if has_key path result then none else add_children path v result children

  -- flatten from `result` on; `none` is the ValueError of an ambiguous path. An item that is no dict
  -- has no children.
  unfoldable mutual
    pub flatten_from : Option Fields → Fields → String → Option Fields
    flatten_from result end prefix = result
    flatten_from result (field key v rest) prefix =
        flatten_from (add_field (path_of prefix key) v result (children_of v (path_of prefix key)))
          rest prefix

    pub children_of : Value → String → Option Fields
    children_of (obj d) path = flatten_from (some end) d path
    children_of null path = some end
    children_of (bool b) path = some end
    children_of (num n) path = some end
    children_of (str s) path = some end
    children_of (arr xs) path = some end
    children_of (tup xs) path = some end

  unfoldable pub flatten : Fields → String → Option Fields
  flatten d prefix = flatten_from (some end) d prefix

  abbrev encoded : Option Value → Option Fields
  encoded (some (obj d)) = if texts.encodes (obj d) then some d else none
  encoded _ = none

  unfoldable pub structured : String → Option Fields
  structured message = encoded (texts.read_json message)

  abbrev level_text : Option Value → Option String
  level_text (some (str s)) = some s
  level_text (some (num n)) = some (texts.show n)
  level_text (some (bool true)) = some "True"
  level_text (some (bool false)) = some "False"
  level_text _ = none

  abbrev first_of : Option String → Option String → Option String
  first_of (some a) b = some a
  first_of none b = b

  abbrev level_in : Option Fields → Option String → Option String
  level_in none level = level
  level_in (some d) level = first_of (level_text (get_field "level" d)) (
      first_of (level_text (get_field "severity" d))
        (first_of (level_text (get_field "levelname" d)) level))

  -- `original_level` as evaluate finds it.
  unfoldable pub original_level_of : Record → Option Fields → Option String
  original_level_of record_ diagnostics = level_in diagnostics (
      first_of record_.original_level (
        let (kind, level) = texts.envelope record_.message in
        if str_eq kind "rust-tracing" then some level else none))

  abbrev known_level : String → String
  known_level l =
      if text_in l ("trace" ∷ "20" ∷ "10" ∷ "debug" ∷ [])
      then "debug"
      else if text_in l ("warn" ∷ "40" ∷ "warning" ∷ [])
      then "warning"
      else if text_in l ("critical" ∷ "60" ∷ "fatal" ∷ [])
      then "fatal"
      else if text_in l ("30" ∷ "info" ∷ [])
      then "info"
      else "error"

  unfoldable pub severity : Option String → String
  severity none = known_level (texts.lower "error")
  severity (some s) = known_level (texts.lower (if str_eq s "" then "error" else s))

  unfoldable pub base_fields_of : String → Scope → Record → String → Fields
  base_fields_of environment scope r level = field "environment" (str environment) (
      field "application" (str scope.application) (
        field "service" (str scope.service) (
          field "namespace" (str r.namespace) (
            field "container" (str r.container)
              (field "failure_type" (str r.failure_type) (field "level" (str level) end))))))

  -- `any(canonical(fields[path]) == canonical(choice) for choice in choices)`
  abbrev pub is_chosen : List Value → Option Value → Bool
  is_chosen choices none = false
  is_chosen choices (some v) = any (λ c. str_eq (texts.canonical v) (texts.canonical c)) choices

  abbrev pub matches : Fields → List (String × List Value) → Bool
  matches fields [] = true
  matches fields ((path, choices) ∷ rest) =
      is_chosen choices (get_field path fields) && matches fields rest

  abbrev pub is_complete : Option Fields → Fields → List String → Bool
  is_complete diagnostics fields paths =
      is_some diagnostics && all (λ path. is_given (get_field path fields)) paths
