-- ===== src/Runtime/Prompt.antt =====
-- The status of the prompt: `update_prompt_status`, `is_prompt_command` and `fail_prompt` of
-- crates/omp-runtime/src/runtime.rs.
pub mod Phases
use mathlib.Core.Logic.{ite}
use omp_remote.Prelude.{
  Bool, true, false, String, Option, none, some, if◌then◌else◌, String_discrete,
}
use omp_remote.Runtime.Types.{
  PromptPhase, PromptStatus, by_local, by_agent, SuccessResponse, Response, ServerMessage,
  CommandKind,
}

-- The pattern `id: Some(id)` with the guard `*id == current.request_id`.
abbrev pub is_for : Option String → String → Bool
is_for none current = false
is_for (some id) current = ite (String_discrete id current) true false

abbrev pub is_submitted : PromptPhase → Bool
is_submitted PromptPhase.submitted = true
is_submitted _ = false

abbrev pub is_active : PromptPhase → Bool
is_active PromptPhase.submitted = true
is_active PromptPhase.running = true
is_active _ = false

module _ {B : Type 0} where
  -- The arm of a successful response to the prompt.
  unfoldable pub acknowledged_phase : PromptPhase → SuccessResponse B → Option PromptPhase
  acknowledged_phase current (SuccessResponse.prompt (some false)) =
      some (PromptPhase.completed by_local)
  acknowledged_phase current (SuccessResponse.prompt (some true)) =
      if is_submitted current then some PromptPhase.running else none
  acknowledged_phase current _ = none

  unfoldable pub next_phase : PromptStatus → ServerMessage B → Option PromptPhase
  unfolding acknowledged_phase
  next_phase current (ServerMessage.response (Response.error id command error code)) =
      if is_for id current.request_id then some (PromptPhase.failed error) else none
  next_phase current (ServerMessage.response (Response.success id result)) =
      if is_for id current.request_id then acknowledged_phase current.phase result else none
  next_phase current (ServerMessage.prompt_result id agent_invoked) =
      if is_for id current.request_id
      then some (if agent_invoked then PromptPhase.running else PromptPhase.completed by_local)
      else none
  next_phase current ServerMessage.agent_start =
      if is_submitted current.phase then some PromptPhase.running else none
  next_phase current (ServerMessage.agent_end messages) =
      if is_active current.phase then some (PromptPhase.completed by_agent) else none
  next_phase current _ = none

  unfoldable pub update_prompt_status : ServerMessage B → Option PromptStatus → Option PromptStatus
  unfolding next_phase
  update_prompt_status frame none = none
  update_prompt_status frame (some current) = elim (next_phase current frame) [
    | none ↦ some current
    | some phase ↦ some (record current { phase = phase })
  ]

  abbrev pub is_prompt_command : CommandKind B → Bool
  is_prompt_command (CommandKind.prompt p) = true
  is_prompt_command (CommandKind.abort_and_prompt p) = true
  is_prompt_command (CommandKind.other p) = false

unfoldable pub fail_prompt : Option PromptStatus → String → String → Option PromptStatus
fail_prompt none request_id error = none
fail_prompt (some current) request_id error =
    if is_for (some request_id) current.request_id
    then some (record current { phase = PromptPhase.failed error })
    else some current
