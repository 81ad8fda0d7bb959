-- ===== src/Adapter/Policy/First.antt =====
-- What a decision of the rules rests on.
use k8s_stack_tooling.Prelude.{
  String, true, Option, none, some, List, [], ◌∷◌, ◌++◌, ◌≡◌, refl, ◌∙◌, ◌⊎◌, inl, inr, arith, not,
  ◌&&◌, str_eq, eq_iff, Bool-cases,
}
use k8s_stack_tooling.Value.{Value, Fields, get_field}
use k8s_stack_tooling.Adapter.Types.{Record, Scope, log_only, is_log_only, Decision}
use k8s_stack_tooling.Adapter.Policy.{
  SourceFormat, json, agentgateway_mcp, Rule, Texts, update_fields, flatten, is_chosen, matches,
  is_complete,
}
use k8s_stack_tooling.Adapter.Policy.Evaluate.{
  Considered, skipped, raised, decided, Locals, decide, try_rule, try_gateway, consider_as,
  consider, fallback, after_rule, first_decision, rules_for, fields_of, locals_of, evaluate,
}

module _ (texts : Texts) where
  -- The value is one of the choices, as canonical texts.
  abbrev IsChosen : Value → List Value → Type 0
  IsChosen v [] = ⊥
  IsChosen v (c ∷ choices) = (texts.canonical v ≡ texts.canonical c) ⊎ IsChosen v choices

  -- Each path of a rule is among the fields, with one of its choices.
  abbrev Matches : Fields → List (String × List Value) → Type 0
  Matches fields [] = Unit
  Matches fields ((path, choices) ∷ rest) =
      ((v : Value) × (get_field path fields ≡ some v) × IsChosen v choices) × Matches fields rest

  any_chosen_lem :
      (v : Value) (choices : List Value)
      → is_chosen texts choices (some v) ≡ true
      → IsChosen v choices
  any_chosen_lem v [] h = cc
  any_chosen_lem v (c ∷ choices) h =
      elim (Bool-cases (str_eq (texts.canonical v) (texts.canonical c))) [
        | inl same ↦ inl ((eq_iff (texts.canonical v) (texts.canonical c)).0 same)
        | inr other ↦ inr (any_chosen_lem v choices (rw other at h))
      ]

  is_chosen-IsChosen :
      (choices : List Value) (o : Option Value)
      → is_chosen texts choices o ≡ true
      → (v : Value) × (o ≡ some v) × IsChosen v choices
  is_chosen-IsChosen choices none h = cc
  is_chosen-IsChosen choices (some v) h = (v, refl, any_chosen_lem v choices h)

  matches-Matches :
      (fields : Fields) (wanted : List (String × List Value))
      → matches texts fields wanted ≡ true
      → Matches fields wanted
  matches-Matches fields [] h = tt
  matches-Matches fields ((path, choices) ∷ rest) h = (
    is_chosen-IsChosen choices (get_field path fields) (ground arith),
    matches-Matches fields rest (ground arith),
  )

module _ (texts : Texts) (l : Locals) where
  -- The diagnostics and the fields that a rule of this format sees. A gateway rule that excludes
  -- also wants a known noise record with all its fields.
  abbrev Sees : SourceFormat → Rule → Option Fields → Fields → Type 0
  Sees json r diagnostics fields = (diagnostics ≡ l.diagnostics) × (fields ≡ l.fields)
  Sees agentgateway_mcp r diagnostics fields =
      (g : Fields) × (flat : Fields) × (l.gateway ≡ some g)
      × (flatten texts g "json" ≡ some flat)
      × (diagnostics ≡ some g)
      × (fields ≡ update_fields l.base_fields flat)
      × (r.action ≡ log_only
          → (texts.stateless_get_noise g ≡ true)
            × (is_complete texts (some g) fields r.group_by ≡ true))

  abbrev AllSkipped : List Rule → Type 0
  AllSkipped [] = Unit
  AllSkipped (r ∷ rules) = (consider texts l r ≡ skipped) × AllSkipped rules

  -- An enabled rule whose every path matches has made this decision, and no rule before it has.
  pub record IsMadeBy (rules : List Rule) (d : Decision) : Type 0 where
    pub before : List Rule
    pub rule : Rule
    pub after : List Rule
    pub diagnostics : Option Fields
    pub fields : Fields
    pub position : rules ≡ before ++ rule ∷ after
    pub first : AllSkipped before
    pub enabled : rule.enabled ≡ true
    pub matched : Matches texts fields rule.match_on
    pub seen : Sees rule.source_format rule diagnostics fields
    pub made :
        d
        ≡ decide texts l rule diagnostics fields
            (is_complete texts diagnostics fields rule.group_by)

  try_rule_decided :
      (r : Rule) (diagnostics : Option Fields) (fields : Fields) (d : Decision)
      → try_rule texts l r diagnostics fields ≡ decided d
      → (r.enabled ≡ true)
        × (matches texts fields r.match_on ≡ true)
        × (r.source_format ≡ agentgateway_mcp
            → r.action ≡ log_only
            → is_complete texts diagnostics fields r.group_by ≡ true)
        × (d
            ≡ decide texts l r diagnostics fields (is_complete texts diagnostics fields r.group_by))
  unfolding try_rule
  try_rule_decided r diagnostics fields d h =
      (ground arith, ground arith, λ g x. ground arith, ground arith)

  gateway_IsMadeBy :
      (r : Rule) (rules : List Rule) (g : Fields) (flat : Option Fields) (d : Decision)
      → r.source_format ≡ agentgateway_mcp
      → l.gateway ≡ some g
      → flatten texts g "json" ≡ flat
      → try_gateway texts l r g flat ≡ decided d
      → IsMadeBy (r ∷ rules) d
  gateway_IsMadeBy r rules g none d format read e h = cc
  gateway_IsMadeBy r rules g (some flat) d format read e h =
      let seen = update_fields l.base_fields flat in
      elim (Bool-cases (is_log_only r.action && not (texts.stateless_get_noise g))) [
        | inl loud ↦ cc (rw loud at h)
        | inr fine ↦
            let (enabled, matched, whole, made) =
              try_rule_decided r (some g) seen d (rw fine at h) in
            record {
              before = [];
              rule = r;
              after = rules;
              diagnostics = some g;
              fields = seen;
              position = refl;
              first = tt;
              enabled = enabled;
              matched = matches-Matches texts seen r.match_on matched;
              seen = rw format (g, flat, read, e, refl, refl, λ x. (ground arith, whole format x));
              made = made;
            }
      ]

  consider-IsMadeBy :
      (r : Rule) (rules : List Rule) (f : SourceFormat) (gateway : Option Fields) (d : Decision)
      → r.source_format ≡ f
      → l.gateway ≡ gateway
      → consider_as texts l f r gateway ≡ decided d
      → IsMadeBy (r ∷ rules) d
  consider-IsMadeBy r rules agentgateway_mcp none d format read h = cc
  consider-IsMadeBy r rules agentgateway_mcp (some g) d format read h =
      gateway_IsMadeBy r rules g (flatten texts g "json") d format read refl h
  consider-IsMadeBy r rules json gateway d format read h =
      let (enabled, matched, whole, made) = try_rule_decided r l.diagnostics l.fields d h in
      record {
        before = [];
        rule = r;
        after = rules;
        diagnostics = l.diagnostics;
        fields = l.fields;
        position = refl;
        first = tt;
        enabled = enabled;
        matched = matches-Matches texts l.fields r.match_on matched;
        seen = rw format (refl, refl);
        made = made;
      }

  IsMadeBy-later :
      (r : Rule) (rules : List Rule) (d : Decision)
      → consider texts l r ≡ skipped
      → IsMadeBy rules d
      → IsMadeBy (r ∷ rules) d
  IsMadeBy-later r rules d skip m = record {
    before = r ∷ m.before;
    rule = m.rule;
    after = m.after;
    diagnostics = m.diagnostics;
    fields = m.fields;
    position = rw m.position refl;
    first = (skip, m.first);
    enabled = m.enabled;
    matched = m.matched;
    seen = m.seen;
    made = m.made;
  }

  -- What the loop ends with.
  abbrev pub IsFounded : List Rule → Decision → Type 0
  IsFounded rules d = IsMadeBy rules d ⊎ ((d ≡ fallback texts l) × AllSkipped rules)

  IsFounded-later :
      (r : Rule) (rules : List Rule) (d : Decision)
      → consider texts l r ≡ skipped
      → IsFounded rules d
      → IsFounded (r ∷ rules) d
  IsFounded-later r rules d skip (inl m) = inl (IsMadeBy-later r rules d skip m)
  IsFounded-later r rules d skip (inr (e, all)) = inr (e, (skip, all))

  after_rule-IsFounded :
      (r : Rule) (rules : List Rule) (c : Considered) (d : Decision)
      → consider texts l r ≡ c
      → (first_decision texts l rules ≡ some d → IsFounded rules d)
      → after_rule texts l c (first_decision texts l rules) ≡ some d
      → IsFounded (r ∷ rules) d
  unfolding consider
  after_rule-IsFounded r rules skipped d e later h = IsFounded-later r rules d e (later h)
  after_rule-IsFounded r rules raised d e later h = cc
  after_rule-IsFounded r rules (decided other) d e later h =
      inl (consider-IsMadeBy r rules r.source_format l.gateway d refl refl (e ∙ cc))

  first_decision-IsFounded :
      (rules : List Rule) (d : Decision) → first_decision texts l rules ≡ some d → IsFounded rules d
  unfolding first_decision
  first_decision-IsFounded [] d h = inr (cc, tt)
  first_decision-IsFounded (r ∷ rules) d h =
      after_rule-IsFounded r rules (consider texts l r) d refl (first_decision-IsFounded rules d) h

-- A decision is made by the first rule that is not skipped, an enabled one, whose every path is in
-- the fields with one of its choices; if each rule is skipped, it is the fallback.
pub evaluate-IsFounded :
    (texts : Texts) (rules : List Rule) (environment : String) (scope : Scope) (r : Record)
    (d : Decision)
    → evaluate texts rules environment scope r ≡ some d
    → let used = rules_for rules (fields_of texts environment scope r) in
      IsFounded texts (locals_of texts used environment scope r) used d
unfolding evaluate
evaluate-IsFounded texts rules environment scope r d h =
    let used = rules_for rules (fields_of texts environment scope r) in
    first_decision-IsFounded texts (locals_of texts used environment scope r) used d h
