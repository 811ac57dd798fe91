-- ===== src/Examples/Supervised.antt =====
-- Runs of the supervisor of crates/omp-runtime.
use omp_remote.Prelude.{ℕ, ◌≡◌, ◌↔◌, refl, true, none, some, List, [], ◌∷◌, ok, err, arith, All}
use omp_remote.Runtime.Types.{
  PromptPhase, PromptStatus, by_local, SuccessResponse, Response, ServerMessage, CommandKind,
  ReaderItem, Supervisor,
}
use omp_remote.Runtime.Prompt.{update_prompt_status}
use omp_remote.Runtime.Prompt.Phases.{reopened_exact}
use omp_remote.Runtime.Ops.{Outgoing, Piped}
use omp_remote.Runtime.Loop.{Turn, Ending, run_actor, started}
use omp_remote.Runtime.Lines.{read_limited_line}
use omp_remote.Runtime.Lines.Framing.{line_from, concat, reader_of, read_limited_line_exact}
use omp_remote.Runtime.Reader.{Decoder, read_stdout}
use omp_remote.Runtime.Reader.Ends.{IsStream, read_stdout_ends}
use omp_remote.Runtime.Answers.Tracked.{answers, IsOwn}
use omp_remote.Runtime.Answers.Once.{request_answered, episode}

abbrev two_buffers : List (List ℕ)
two_buffers = (1 ∷ []) ∷ (2 ∷ 10 ∷ 3 ∷ []) ∷ []

read_limited_line_example :
    (read_limited_line 5 (reader_of two_buffers)).0 ≡ line_from 5 (concat two_buffers)
read_limited_line_example =
    read_limited_line_exact 5 two_buffers (omega arith) (omega arith, (omega arith, tt))

line_found : line_from 5 (concat two_buffers) ≡ ok (some (1 ∷ 2 ∷ 10 ∷ []))
line_found = refl

abbrev done : PromptStatus
done = record { request_id = "p"; phase = PromptPhase.completed by_local }

abbrev late : ServerMessage ℕ
late = ServerMessage.prompt_result (some "p") true

reopened_example :
    (update_prompt_status late (some done) ≡ some (record done { phase = PromptPhase.running }))
    ↔ (late ≡ ServerMessage.prompt_result (some "p") true)
reopened_example = reopened_exact done late refl

abbrev outgoing : Outgoing ℕ
outgoing = record {
  to_json_line = λ m. ok (1 ∷ 10 ∷ []);
  max_frame_bytes = 8;
  display = λ e. "error";
}

abbrev open_pipe : Piped
open_pipe = record { write_all = ok tt; flush = ok tt }

abbrev killed : Ending ℕ
killed = record { turns = []; start_kill = ok tt; wait = err "gone"; items = [] }

abbrev responded : List (Turn ℕ)
responded =
    Turn.read (
      some (
        ReaderItem.frame
          (ServerMessage.response (Response.success (some "r") (SuccessResponse.prompt none)))))
    ∷ []

abbrev at_start : Supervisor ℕ
at_start = started 1

request_answered_example :
    (final : Supervisor ℕ) × (run_actor outgoing
        (episode "r" 7 open_pipe (CommandKind.prompt 0) responded (err "lost"))
        killed
        at_start
      ≡ some final)
    × (final.pending ≡ [])
    × (answers 7 final.effects ≡ 1)
    × All (IsOwn "r" 7) final.effects
request_answered_example =
    request_answered "r" 7 outgoing open_pipe (CommandKind.prompt 0) responded (err "lost") killed
      at_start (record { no_wait = refl; no_answer = refl }) (tt, tt)

-- A decoder to which every line is a frame.
abbrev talking : Decoder ℕ
talking = record {
  State = ℕ;
  push_json_line = λ bytes n. (ok (some ServerMessage.agent_start), n);
  is_reassembling = λ n. true;
  line_text = λ e. "line";
}

read_stdout_ends_example :
    (items : List (ReaderItem ℕ)) × (read_stdout talking 9 1 5 (reader_of two_buffers) 0
      ≡ some items)
    × IsStream 1 items
read_stdout_ends_example = read_stdout_ends talking 5 9 1 (reader_of two_buffers) 0 (omega arith)
