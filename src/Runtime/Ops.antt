-- ===== src/Runtime/Ops.antt =====
-- What `run_actor` of crates/omp-runtime/src/runtime.rs does with a frame, a message and the end.
use omp_remote.Prelude.{
  ℕ, Bool, true, false, String, Option, none, some, List, [], ◌∷◌, ◌++◌, Result, ok, err, ltb,
  length, if◌then◌else◌, ◌>>=◌, ◌>>◌, reject_if, map_err,
}
use omp_remote.Prelude.BTreeMap
use omp_remote.Prelude.BTreeMap.{BTreeMap}
use omp_remote.Runtime.Types.{
  RuntimeExit, RuntimeStatus, PromptPhase, RequestError, Response, response_id, ServerMessage,
  Command, ClientMessage, RuntimeEvent, Sender, ReaderItem, ExitStatus, StopReason, Effect,
  Supervisor, frame_too_large, transport,
}
use omp_remote.Runtime.Prompt.{is_prompt_command, update_prompt_status, fail_prompt}

-- Lines to the child, their encoding, which serde_json does, the limit on them, and the text of an
-- error, which Display makes.
pub record Outgoing (B : Type 0) : Type 0 where
  pub to_json_line : ClientMessage B → Result String (List ℕ)
  pub max_frame_bytes : ℕ
  pub display : RequestError → String

-- What the pipe says to `write_all` and to `flush`.
pub record Piped : Type 0 where
  pub write_all : Result String (Unit {0})
  pub flush : Result String (Unit {0})

module _ {B : Type 0} where
  abbrev pub emit : Effect B → Supervisor B → Supervisor B
  emit e s = record s { effects = s.effects ++ (e ∷ []) }

  unfoldable pub write_message :
      Outgoing B → Piped → ClientMessage B → Result RequestError (Unit {0})
  write_message out pipe message = map_err transport (out.to_json_line message) >>= λ encoded.
      reject_if (ltb out.max_frame_bytes (length encoded))
        (frame_too_large (length encoded) out.max_frame_bytes)
      >> map_err transport pipe.write_all
      >> map_err transport pipe.flush

  -- A response goes to the request that waits for it, if there is one, or is an event.
  unfoldable pub route_response : Response B → Supervisor B → Supervisor B
  route_response r s =
      let unclaimed = emit (Effect.event (RuntimeEvent.frame (ServerMessage.response r))) s in
      elim (response_id r) [
        | none ↦ unclaimed
        | some id ↦ elim (BTreeMap.get id s.pending) [
          | none ↦ unclaimed
          | some tx ↦
              emit (Effect.answer tx (ok r)) (record s { pending = BTreeMap.remove id s.pending })
        ]
      ]

  unfoldable pub handle_frame : ServerMessage B → Supervisor B → Supervisor B
  unfolding update_prompt_status route_response
  handle_frame (ServerMessage.response r) s =
      route_response r
        (record s { prompt = update_prompt_status (ServerMessage.response r) s.prompt })
  handle_frame frame s =
      emit (Effect.event (RuntimeEvent.frame frame))
        (record s { prompt = update_prompt_status frame s.prompt })

  -- The item's effect, and whether the reader is at its end.
  unfoldable pub handle_reader_item : Option (ReaderItem B) → Supervisor B → Bool × Supervisor B
  unfolding handle_frame
  handle_reader_item (some (ReaderItem.frame frame)) s = (false, handle_frame frame s)
  handle_reader_item (some (ReaderItem.error message)) s =
      (true, emit (Effect.event (RuntimeEvent.failed message)) s)
  handle_reader_item (some ReaderItem.eof) s = (true, s)
  handle_reader_item none s = (true, s)

  -- The items are those that still come out of the reader's channel.
  unfoldable pub drain_reader : List (ReaderItem B) → Supervisor B → Supervisor B
  unfolding handle_reader_item
  drain_reader [] s = s
  drain_reader (item ∷ items) s =
      let (done, s') = handle_reader_item (some item) s in
      elim done [ true ↦ s' | false ↦ drain_reader items s' ]

  -- A prompt is submitted from the moment its command arrives.
  abbrev pub submit : Command B → Supervisor B → Supervisor B
  submit command s =
      if is_prompt_command command.kind
      then record s {
        prompt = some (record { request_id = command.id; phase = PromptPhase.submitted });
      }
      else s

  -- What follows the writing of a request, by its result.
  unfoldable pub requested :
      Outgoing B
      → Command B
      → Sender
      → Result RequestError (Unit {0})
      → Supervisor B
      → Option StopReason × Supervisor B
  unfolding fail_prompt
  requested out command tx (ok done) s = (
    none,
    emit (Effect.wrote (ClientMessage.command command))
        (record s { pending = BTreeMap.insert command.id tx s.pending }),
  )
  requested out command tx (err (frame_too_large bytes limit)) s = (
    none,
    emit (Effect.answer tx (err (frame_too_large bytes limit))) (record s {
      prompt = fail_prompt s.prompt command.id (out.display (frame_too_large bytes limit));
    }),
  )
  requested out command tx (err reason) s = (
    some (StopReason.transport_failed (out.display reason)),
    emit (Effect.answer tx (err reason)) s,
  )

  -- The arm of a request.
  unfoldable pub handle_request :
      Outgoing B → Piped → Command B → Sender → Supervisor B → Option StopReason × Supervisor B
  unfolding write_message requested
  handle_request out pipe command tx s =
      requested out command tx (write_message out pipe (ClientMessage.command command))
        (submit command s)

  -- What follows the writing of a message that expects no response.
  unfoldable pub sent :
      Outgoing B
      → ClientMessage B
      → Sender
      → Result RequestError (Unit {0})
      → Supervisor B
      → Option StopReason × Supervisor B
  sent out message tx (ok done) s =
      (none, emit (Effect.confirm tx (ok tt)) (emit (Effect.wrote message) s))
  sent out message tx (err (frame_too_large bytes limit)) s =
      (none, emit (Effect.confirm tx (err (frame_too_large bytes limit))) s)
  sent out message tx (err reason) s = (
    some (StopReason.transport_failed (out.display reason)),
    emit (Effect.confirm tx (err reason)) s,
  )

  unfoldable pub handle_send :
      Outgoing B
      → Piped
      → ClientMessage B
      → Sender
      → Supervisor B
      → Option StopReason × Supervisor B
  unfolding write_message sent
  handle_send out pipe message tx s = sent out message tx (write_message out pipe message) s

  abbrev pub fail_all : RequestError → BTreeMap Sender → List (Effect B)
  fail_all error [] = []
  fail_all error ((id, tx) ∷ waiting) = Effect.answer tx (err error) ∷ fail_all error waiting

  abbrev pub fail_pending : RequestError → Supervisor B → Supervisor B
  fail_pending error s = record s { effects = s.effects ++ fail_all error s.pending; pending = [] }

  abbrev pub publish_exit : RuntimeExit → Supervisor B → Supervisor B
  publish_exit exit s =
      emit (Effect.event (RuntimeEvent.exited exit))
        (record s { status = RuntimeStatus.exited exit })

  abbrev pub publish_failure : String → Supervisor B → Supervisor B
  publish_failure message s =
      emit (Effect.event (RuntimeEvent.failed message))
        (record s { status = RuntimeStatus.failed message })

abbrev pub exit_from_status : ExitStatus → Bool → RuntimeExit
exit_from_status status forced = record {
  code = status.code;
  success = status.success;
  forced = forced;
}
