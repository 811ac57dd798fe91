-- ===== src/Runtime/Prompt/Phases.antt =====
-- The phases that a prompt of crates/omp-runtime/src/runtime.rs goes through.
use omp_remote.Prelude.{◌≡◌, ◌↔◌, true, false, some, arith}
use omp_remote.Runtime.Types.{PromptPhase, PromptStatus, ServerMessage}
use omp_remote.Runtime.Prompt.{is_active, acknowledged_phase, next_phase, update_prompt_status}

module _ {B : Type 0} where
  -- A prompt that is completed or has failed runs again after a frame exactly if the frame is a
  -- prompt result with the prompt's ID that says that the agent was invoked.
  pub reopened_exact :
      (current : PromptStatus) (frame : ServerMessage B)
      → is_active current.phase ≡ false
      → (update_prompt_status frame (some current)
          ≡ some (record current { phase = PromptPhase.running }))
        ↔ (frame ≡ ServerMessage.prompt_result (some current.request_id) true)
  unfolding update_prompt_status next_phase acknowledged_phase
  reopened_exact current frame h = ground arith
