-- ===== src/Tests/Checks.antt =====
-- The claim on guardrails, at guardrails that count how often they are asked.
use agent_task_platform.Prelude.{ℕ, suc, String, ◌≡◌, refl, none, [], ◌∷◌}
use agent_task_platform.Domain.Entities.{Json}
use agent_task_platform.Guardrails.{
  GuardrailBehavior, ToolGuardrailOutput, Guardrail, Checked, is_raise, run_guardrails,
}
use agent_task_platform.Guardrails.Order.{halts_at_first}

abbrev verdict : GuardrailBehavior → ToolGuardrailOutput
verdict behavior = record { behavior = behavior; message = none; output_info = Json.null }

abbrev asked : String → GuardrailBehavior → Guardrail ℕ ToolGuardrailOutput
asked name behavior = record { name = name; guardrail_function = λ d n. (verdict behavior, suc n) }

abbrev polite : Guardrail ℕ ToolGuardrailOutput
polite = asked "polite" GuardrailBehavior.reject_content

abbrev strict : Guardrail ℕ ToolGuardrailOutput
strict = asked "strict" GuardrailBehavior.raise_exception

abbrev output_alone : String → ToolGuardrailOutput → ToolGuardrailOutput
output_alone name output = output

halts_at_first_example :
    (run_guardrails is_raise output_alone (polite ∷ strict ∷ polite ∷ []) [] 0
      ≡ (Checked.tripped "strict" (verdict GuardrailBehavior.raise_exception), 2))
    × (run_guardrails is_raise output_alone (polite ∷ []) [] 0
        ≡ (Checked.passed (verdict GuardrailBehavior.reject_content ∷ []), 1))
halts_at_first_example =
    halts_at_first is_raise output_alone (polite ∷ []) (polite ∷ []) strict [] 0 (refl, tt) refl
