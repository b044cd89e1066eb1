-- ===== src/Guardrails.antt =====
-- framework/tool/guardrails.py and framework/tool/error_handlers.py: the checks of inputs and outputs, and
-- the handlers of errors. A guardrail's or handler's function is outside the source: it may change the
-- world `W` that it is awaited in.
pub mod Order
use agent_task_platform.Prelude.{
  String, Bool, true, false, Option, none, some, List, [], ◌∷◌, ◌++◌, map, if◌then◌else◌,
}
use agent_task_platform.Domain.Entities.{Dict, Json}
use agent_task_platform.World.{dict_get, dict_set, dict_pop}

pub data GuardrailBehavior : Type 0 where
  allow reject_content raise_exception : GuardrailBehavior

-- `GuardrailFunctionOutput`
pub record GuardrailFunctionOutput : Type 0 where
  pub output_info : Json
  pub tripwire_triggered : Bool

pub record ToolGuardrailOutput : Type 0 where
  pub behavior : GuardrailBehavior
  pub message : Option String
  pub output_info : Json

-- A guardrail with its function, on the data that it checks.
pub record Guardrail (W O : Type 0) : Type 0 where
  pub name : String
  pub guardrail_function : Dict Json → W → O × W

pub record GuardrailResult : Type 0 where
  pub guardrail_name : String
  pub output : GuardrailFunctionOutput

-- What the run of guardrails comes to: their results, or the exception of the one that halts.
pub data Checked (R O : Type 0) : Type 0 where
  passed : List R → Checked R O
  tripped : String → O → Checked R O

abbrev pub prepend : {R O : Type 0} → R → Checked R O → Checked R O
prepend r (passed results) = passed (r ∷ results)
prepend r (tripped name output) = tripped name output

abbrev named : String → GuardrailFunctionOutput → GuardrailResult
named name output = record { guardrail_name = name; output = output }

abbrev pub is_raise : ToolGuardrailOutput → Bool
is_raise o = elim o.behavior [ GuardrailBehavior.raise_exception ↦ true | _ ↦ false ]

-- The loop that the four functions share, up to the test of an output and what is kept of it.
module _ {W O R : Type 0} (halts : O → Bool) (result : String → O → R) where
  unfoldable pub run_guardrails : List (Guardrail W O) → Dict Json → W → Checked R O × W
  run_guardrails [] data_in w = (passed [], w)
  run_guardrails (g ∷ guardrails) data_in w =
      let (output, w1) = g.guardrail_function data_in w in
      let (rest, w2) = run_guardrails guardrails data_in w1 in
      if halts output
      then (tripped g.name output, w1)
      else (prepend (result g.name output) rest, w2)

module _ {W : Type 0} where
  abbrev pub run_input_guardrails :
      List (Guardrail W GuardrailFunctionOutput)
      → Dict Json
      → W
      → Checked GuardrailResult GuardrailFunctionOutput × W
  run_input_guardrails guardrails input_data w =
      run_guardrails (λ o. o.tripwire_triggered) named guardrails input_data w

  abbrev pub run_output_guardrails :
      List (Guardrail W GuardrailFunctionOutput)
      → Dict Json
      → W
      → Checked GuardrailResult GuardrailFunctionOutput × W
  run_output_guardrails guardrails output w =
      run_guardrails (λ o. o.tripwire_triggered) named guardrails output w

  abbrev pub run_tool_input_guardrails :
      List (Guardrail W ToolGuardrailOutput)
      → Dict Json
      → W
      → Checked ToolGuardrailOutput ToolGuardrailOutput × W
  run_tool_input_guardrails guardrails input_data w =
      run_guardrails is_raise (λ name output. output) guardrails input_data w

  abbrev pub run_tool_output_guardrails :
      List (Guardrail W ToolGuardrailOutput)
      → Dict Json
      → W
      → Checked ToolGuardrailOutput ToolGuardrailOutput × W
  run_tool_output_guardrails guardrails output w =
      run_guardrails is_raise (λ name output. output) guardrails output w

-- `RunErrorHandlers`, with the snapshot and the result that its handlers take and give.
module _ {W Snapshot Handled : Type 0} where
  abbrev pub set :
      String
      → (Snapshot → W → Option Handled × W)
      → Dict (Snapshot → W → Option Handled × W)
      → Dict (Snapshot → W → Option Handled × W)
  set kind handler handlers = dict_set kind handler handlers

  abbrev pub remove :
      String → Dict (Snapshot → W → Option Handled × W) → Dict (Snapshot → W → Option Handled × W)
  remove kind handlers = dict_pop kind handlers

  unfoldable pub handle :
      String → Snapshot → Dict (Snapshot → W → Option Handled × W) → W → Option Handled × W
  handle kind snapshot handlers w = elim (dict_get kind handlers) [
    | none ↦ (none, w)
    | some handler ↦ handler snapshot w
  ]
