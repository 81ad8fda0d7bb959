-- ===== src/Adapter/Policy/Evaluate.antt =====
-- policy.py: Policy.evaluate. The decision has no `fields`, which no caller reads.
use k8s_stack_tooling.Prelude.{
  str_append, String, Bool, true, false, Option, none, some, List, [], ◌∷◌, not, ◌&&◌, ◌||◌, any,
  if◌then◌else◌, str_eq,
}
use k8s_stack_tooling.Value.{Value, null, obj, Fields, end, get_field, text_in}
use k8s_stack_tooling.Adapter.Types.{Record, Scope, report, is_log_only, Decision}
use k8s_stack_tooling.Adapter.Policy.{
  SourceFormat, json, agentgateway_mcp, Rule, Texts, set_field, update_fields, filter_keys,
  context_fields, flatten, structured, original_level_of, severity, base_fields_of, matches,
  is_complete,
}

-- What the loop of evaluate does with one rule: `continue`, a ValueError, or the decision.
pub data Considered : Type 0 where
  skipped raised : Considered
  decided : Decision → Considered

-- The locals of evaluate that the loop reads.
pub record Locals : Type 0 where
  pub message : String
  pub level : String
  pub original_level : Option String
  pub diagnostics : Option Fields
  pub fields : Fields
  pub base_fields : Fields
  pub gateway : Option Fields

abbrev is_json : SourceFormat → Bool
is_json json = true
is_json agentgateway_mcp = false

abbrev diagnostics_value : Option Fields → Value
diagnostics_value none = null
diagnostics_value (some d) = obj d

module _ (texts : Texts) (l : Locals) where
  abbrev dimensions : Fields → List String → Fields
  dimensions fields [] = end
  dimensions fields (path ∷ paths) = elim (get_field path fields) [
    | none ↦ dimensions fields paths
    | some v ↦ set_field path v (dimensions fields paths)
  ]

  abbrev recipe_name : SourceFormat → String
  recipe_name json = "structured-v1"
  recipe_name agentgateway_mcp = "agentgateway-mcp-v1"

  -- The source that is normalized, of a rule for which the fields are complete.
  abbrev normal_source : SourceFormat → Option Fields → Option Fields → Fields
  normal_source agentgateway_mcp (some g) diagnostics = texts.gateway_identity g
  normal_source _ _ (some d) = d
  normal_source _ _ none = end

  unfoldable pub parts_of : Rule → Option Fields → Fields → List String
  parts_of r diagnostics fields =
      recipe_name r.source_format
      ∷ texts.canonical (obj (dimensions fields r.group_by))
      ∷ texts.canonical (
          obj (
            filter_keys (λ k. not (text_in k r.drop_fields))
              (normal_source r.source_format l.gateway diagnostics)))
      ∷ []

  abbrev title_of : Option String → Option Fields → Fields → String
  title_of none diagnostics fields = texts.readable l.message diagnostics
  title_of (some t) diagnostics fields =
      if str_eq t ""
      then texts.readable l.message diagnostics
      else texts.title_text (texts.render t fields)

  abbrev level_or : Option String → String → String
  level_or none level = level
  level_or (some s) level = if str_eq s "" then level else s

  -- The Decision of a rule that matches.
  unfoldable pub decide : Rule → Option Fields → Fields → Bool → Decision
  decide r diagnostics fields complete = record {
    rule_id = r.id;
    action = r.action;
    count_unit = if complete then r.count_unit else "error_events";
    title = title_of r.title diagnostics fields;
    explanation =
        str_append (texts.explain r.explanation fields)
          (if complete then "" else " Incomplete diagnostic fields; exact grouping is retained.");
    level = level_or r.level l.level;
    original_level = l.original_level;
    identity_parts = if complete then some (parts_of r diagnostics fields) else none;
    diagnostics = diagnostics_value diagnostics;
  }

  -- The tests on a rule from its `match` on, on the fields of its format.
  unfoldable pub try_rule : Rule → Option Fields → Fields → Considered
  try_rule r diagnostics fields =
      let complete = is_complete texts diagnostics fields r.group_by in
      if not r.enabled || not (matches texts fields r.match_on)
      then skipped
      else if not (is_json r.source_format) && is_log_only r.action && not complete
      then skipped
      else decided (decide r diagnostics fields complete)

  abbrev pub try_gateway : Rule → Fields → Option Fields → Considered
  try_gateway r g none = raised
  try_gateway r g (some flat) =
      if is_log_only r.action && not (texts.stateless_get_noise g)
      then skipped
      else try_rule r (some g) (update_fields l.base_fields flat)

  abbrev pub consider_as : SourceFormat → Rule → Option Fields → Considered
  consider_as json r gateway = try_rule r l.diagnostics l.fields
  consider_as agentgateway_mcp r none = skipped
  consider_as agentgateway_mcp r (some g) = try_gateway r g (flatten texts g "json")

  -- The body of the loop over the rules.
  unfoldable pub consider : Rule → Considered
  consider r = consider_as r.source_format r l.gateway

  unfoldable pub fallback : Decision
  fallback = record {
    rule_id = "fallback-exact-v2";
    action = report;
    count_unit = "error_events";
    title = texts.readable l.message l.diagnostics;
    explanation = "Unrecognized or unconfigured failure; exact source content is kept separate.";
    level = l.level;
    original_level = l.original_level;
    identity_parts = none;
    diagnostics = diagnostics_value l.diagnostics;
  }

  abbrev pub after_rule : Considered → Option Decision → Option Decision
  after_rule skipped rest = rest
  after_rule raised rest = none
  after_rule (decided d) rest = some d

  -- The loop over the rules; `none` is a ValueError.
  unfoldable pub first_decision : List Rule → Option Decision
  first_decision [] = some fallback
  first_decision (r ∷ rules) = after_rule (consider r) (first_decision rules)

-- `fields.update(flatten(diagnostics, "json"))`, where `none` is an ambiguous path.
abbrev with_diagnostics : Texts → Fields → Option Fields → Option Fields
with_diagnostics texts base none = some base
with_diagnostics texts base (some d) = elim (flatten texts d "json") [
  | none ↦ none
  | some flat ↦ some (update_fields base flat)
]

abbrev pub is_gateway_rule : Rule → Bool
is_gateway_rule r = r.enabled && not (is_json r.source_format)

-- The rules that the loop goes over.
abbrev pub rules_for : List Rule → Option Fields → List Rule
rules_for rules none = []
rules_for rules (some fields) = rules

abbrev fields_or : Fields → Option Fields → Fields
fields_or base none = base
fields_or base (some fields) = fields

unfoldable pub fields_of : Texts → String → Scope → Record → Option Fields
fields_of texts environment scope r =
    let d = structured texts r.message in
    with_diagnostics texts
      (base_fields_of texts environment scope r (severity texts (original_level_of texts r d))) d

unfoldable pub locals_of : Texts → List Rule → String → Scope → Record → Locals
locals_of texts rules environment scope r =
    let d = structured texts r.message in
    let original = original_level_of texts r d in
    let base = base_fields_of texts environment scope r (severity texts original) in
    let fields = fields_or base (with_diagnostics texts base d) in
    record {
      message = r.message;
      level = severity texts original;
      original_level = original;
      diagnostics = d;
      fields = fields;
      base_fields = filter_keys (λ k. text_in k context_fields) fields;
      gateway = if any is_gateway_rule rules then texts.gateway_mcp r.message else none;
    }

-- Policy.evaluate
unfoldable pub evaluate : Texts → List Rule → String → Scope → Record → Option Decision
evaluate texts rules environment scope r =
    let used = rules_for rules (fields_of texts environment scope r) in
    first_decision texts (locals_of texts used environment scope r) used
