-- ===== src/Adapter/Policy/Examples.antt =====
-- A policy that excludes probes.
use k8s_stack_tooling.Prelude.{true, false, none, some, [], ◌∷◌, ◌≡◌, refl, is_some}
use k8s_stack_tooling.Value.{str, obj, Fields, end, field}
use k8s_stack_tooling.Adapter.Types.{Record, Scope, log_only, Decision}
use k8s_stack_tooling.Adapter.Policy.{
  json, Rule, Texts, flatten, flatten_from, structured, original_level_of, severity, base_fields_of,
}
use k8s_stack_tooling.Adapter.Policy.Evaluate.{
  fields_of, locals_of, rules_for, evaluate, first_decision, consider, try_rule, decide,
}
use k8s_stack_tooling.Adapter.Policy.First.{IsMadeBy, IsFounded, evaluate-IsFounded}
use k8s_stack_tooling.Adapter.Policy.Flattening.{AreUnique, IsFound, flatten-IsFound}
use k8s_stack_tooling.Adapter.Policy.Exclusion.{evaluate-log_only}

abbrev scope : Scope
scope = record {
  id = "s";
  application = "shop";
  service = "api";
  namespaces = "prod" ∷ [];
  containers = "web" ∷ [];
  failure_types = "error" ∷ [];
  release = none;
}

abbrev probe : Record
probe = record {
  index = "logs";
  id = "1";
  timestamp = "2026-01-01T00:00:00Z";
  message = "probe";
  namespace = "prod";
  container = "web";
  failure_type = "error";
  image = none;
  original_level = none;
}

-- The text of a value is the text in it, and a path is texts only of the two parts used here.
abbrev texts : Texts
texts = record {
  read_json = λ s. some (obj (field "code" (str s) end));
  encodes = λ v. true;
  canonical = λ v. elim v [ str s ↦ s | _ ↦ "" ];
  lower = λ s. s;
  show = λ n. "";
  envelope = λ s. ("raw", s);
  gateway_mcp = λ s. none;
  gateway_identity = λ d. d;
  stateless_get_noise = λ d. false;
  render = λ t d. t;
  explain = λ t d. t;
  readable = λ s d. s;
  title_text = λ s. s;
}

abbrev rule : Rule
rule = record {
  id = "probes";
  enabled = true;
  source_format = json;
  match_on = ("namespace", str "prod" ∷ []) ∷ ("json.code", str "ping" ∷ str "probe" ∷ []) ∷ [];
  action = log_only;
  group_by = "json.code" ∷ [];
  drop_fields = [];
  count_unit = "error_events";
  title = none;
  explanation = "A probe.";
  level = none;
}

abbrev decision : Decision
decision =
    decide texts (locals_of texts (rule ∷ []) "test" scope probe) rule
      (some (field "code" (str "probe") end))
      (locals_of texts (rule ∷ []) "test" scope probe).fields true

evaluated : evaluate texts (rule ∷ []) "test" scope probe ≡ some decision
unfolding evaluate fields_of locals_of structured flatten flatten_from original_level_of severity
    base_fields_of first_decision consider try_rule
evaluated = refl

excluded : decision.action ≡ log_only
unfolding decide
excluded = refl

evaluate-IsFounded_example :
    let used = rules_for (rule ∷ []) (fields_of texts "test" scope probe) in
    IsFounded texts (locals_of texts used "test" scope probe) used decision
evaluate-IsFounded_example =
    evaluate-IsFounded texts (rule ∷ []) "test" scope probe decision evaluated

evaluate-log_only_example :
    (is_some (fields_of texts "test" scope probe) ≡ true)
    × ((m : IsMadeBy texts (locals_of texts (rule ∷ []) "test" scope probe) (rule ∷ []) decision)
        × (m.rule.action ≡ log_only))
evaluate-log_only_example =
    evaluate-log_only texts (rule ∷ []) "test" scope probe decision evaluated excluded

-- A dict in a dict.
abbrev nested : Fields
nested = field "code" (obj (field "step" (str "probe") end)) end

abbrev flattened : Fields
flattened =
    field "json.code" (obj (field "step" (str "probe") end))
      (field "json.code.step" (str "probe") end)

flattens : flatten texts nested "json" ≡ some flattened
unfolding flatten flatten_from
flattens = refl

flatten-IsFound_example : IsFound texts "json" nested flattened × AreUnique flattened
flatten-IsFound_example = flatten-IsFound texts nested "json" flattened flattens
