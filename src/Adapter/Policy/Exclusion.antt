-- ===== src/Adapter/Policy/Exclusion.antt =====
-- When the rules keep a record from being reported.
use k8s_stack_tooling.Prelude.{
  String, true, Option, none, some, List, [], ◌∷◌, ◌++◌, ◌≡◌, refl, ◌∙◌, sym, ap, is_some, inl, inr,
}
use k8s_stack_tooling.Value.{Fields}
use k8s_stack_tooling.Adapter.Types.{Record, Scope, Action, report, log_only, Decision}
use k8s_stack_tooling.Adapter.Policy.{Rule, Texts}
use k8s_stack_tooling.Adapter.Policy.Evaluate.{
  Locals, decide, fallback, rules_for, fields_of, locals_of, evaluate,
}
use k8s_stack_tooling.Adapter.Policy.First.{IsMadeBy, IsFounded, evaluate-IsFounded}

fallback-report :
    (texts : Texts) (l : Locals) (d : Decision) → d ≡ fallback texts l → d.action ≡ log_only → ⊥
unfolding fallback
fallback-report texts l d e h = report≢log_only (sym (ap action_of e) ∙ h)
  where
    action_of : Decision → Action
    action_of x = x.action

    report≢log_only : report ≡ log_only → ⊥
    report≢log_only p = cc

made-action :
    (texts : Texts) (l : Locals) (rules : List Rule) (d : Decision) (m : IsMadeBy texts l rules d)
    → m.rule.action ≡ d.action
unfolding decide
made-action texts l rules d m = rw m.made refl

nothing-IsMadeBy :
    (texts : Texts) (l : Locals) (before after : List Rule) (r : Rule)
    → [] ≡ before ++ r ∷ after
    → ⊥
nothing-IsMadeBy texts l [] after r e = cc
nothing-IsMadeBy texts l (b ∷ before) after r e = cc

-- A decision not to report is made by a "log_only" rule of the policy, the first that is not
-- skipped; it is enabled and its every path is in the fields with one of its choices; a gateway rule
-- has also seen a known noise record that has all its fields. The diagnostics had no ambiguous path.
pub evaluate-log_only :
    (texts : Texts) (rules : List Rule) (environment : String) (scope : Scope) (r : Record)
    (d : Decision)
    → evaluate texts rules environment scope r ≡ some d
    → d.action ≡ log_only
    → (is_some (fields_of texts environment scope r) ≡ true)
      × ((m : IsMadeBy texts (locals_of texts rules environment scope r) rules d) × (m.rule.action
            ≡ log_only))
evaluate-log_only texts rules environment scope r d h quiet =
    of_fields (fields_of texts environment scope r)
      (evaluate-IsFounded texts rules environment scope r d h)
  where
    locals : List Rule → Locals
    locals used = locals_of texts used environment scope r

    of_fields :
        (o : Option Fields)
        → IsFounded texts (locals (rules_for rules o)) (rules_for rules o) d
        → (is_some o ≡ true)
          × ((m : IsMadeBy texts (locals rules) rules d) × (m.rule.action ≡ log_only))
    of_fields o (inr (e, all)) = absurd (fallback-report texts _ d e quiet)
    of_fields none (inl m) =
        absurd (nothing-IsMadeBy texts (locals []) m.before m.after m.rule m.position)
    of_fields (some f) (inl m) = (refl, (m, made-action texts (locals rules) rules d m ∙ quiet))
