-- ===== src/Guardrails/Order.antt =====
-- framework/tool/guardrails.py: guardrails run in order, and none after one that halts.
use agent_task_platform.Prelude.{String, ◌≡◌, refl, Bool, true, false, List, [], ◌∷◌, ◌++◌}
use agent_task_platform.Domain.Entities.{Dict, Json}
use agent_task_platform.Guardrails.{Guardrail, passed, tripped, run_guardrails}

module _ {W O R : Type 0} (result : String → O → R) where
  -- The guardrails run one after another whatever they answer: the results and the world after them.
  abbrev pub answers : List (Guardrail W O) → Dict Json → W → List R × W
  answers [] data_in w = ([], w)
  answers (g ∷ guardrails) data_in w =
      let (output, w1) = g.guardrail_function data_in w in
      let (rest, w2) = answers guardrails data_in w1 in (result g.name output ∷ rest, w2)

-- None of the guardrails halts when they run one after another.
abbrev pub AllPass : {W O : Type 0} → (O → Bool) → List (Guardrail W O) → Dict Json → W → Type 0
AllPass halts [] data_in w = Unit
AllPass halts (g ∷ guardrails) data_in w =
    (halts (g.guardrail_function data_in w).0 ≡ false)
    × AllPass halts guardrails data_in (g.guardrail_function data_in w).1

-- If every guardrail of a first list, run one after the other, passes, and the next one halts, then the
-- run raises for that one, in the world it leaves, whatever guardrails follow; and if none follow after
-- the first list, the run answers all their results, in their order.
pub halts_at_first :
    {W O R : Type 0} (halts : O → Bool) (result : String → O → R)
    (before after : List (Guardrail W O)) (g : Guardrail W O) (data_in : Dict Json) (w : W)
    → AllPass halts before data_in w
    → halts (g.guardrail_function data_in (answers result before data_in w).1).0 ≡ true
    → (run_guardrails halts result (before ++ g ∷ after) data_in w ≡ (
      tripped g.name (g.guardrail_function data_in (answers result before data_in w).1).0,
      (g.guardrail_function data_in (answers result before data_in w).1).1,
    ))
      × (run_guardrails halts result before data_in w
          ≡ (passed (answers result before data_in w).0, (answers result before data_in w).1))
unfolding run_guardrails
halts_at_first halts result [] after g data_in w pass halted =
    (rw (run_guardrails, halted) refl, refl)
halts_at_first halts result (b ∷ before) after g data_in w pass halted =
    let (stops, runs) =
      halts_at_first halts result before after g data_in (b.guardrail_function data_in w).1 pass.1
        halted in
    (rw (run_guardrails, pass.0, stops) refl, rw (run_guardrails, pass.0, runs) refl)
