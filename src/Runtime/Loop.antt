-- ===== src/Runtime/Loop.antt =====
-- `run_actor` and `shutdown_child` of crates/omp-runtime/src/runtime.rs.
use omp_remote.Prelude.{
  true, false, ℕ, String, Option, none, some, List, [], ◌∷◌, Result, ok, err, ◌>>=◌,
}
use omp_remote.Prelude.BTreeMap
use omp_remote.Runtime.Types.{
  RuntimeExit, RuntimeStatus, RequestError, ActorMessage, ReaderItem, ExitStatus, StopReason,
  Sender, Effect, Supervisor, runtime_stopped, transport,
}
use omp_remote.Runtime.Ops.{
  Outgoing, Piped, emit, handle_frame, handle_request, handle_send, drain_reader, fail_pending,
  publish_exit, publish_failure, exit_from_status,
}

-- What `select!` meets: the child's end, a message for the actor (with what the pipe says, should it
-- be written to) or the end of the messages, and an item of the reader or its end.
pub data Turn (B : Type 0) : Type 0 where
  waited : Result String ExitStatus → Turn B
  received : Option (ActorMessage B) → Piped → Turn B
  read : Option (ReaderItem B) → Turn B

-- What the actor meets once it has stopped: the turns until the child has exited or the timeout is
-- over, then what the kill and the last wait give, and the items that still come from the reader.
pub record Ending (B : Type 0) : Type 0 where
  pub turns : List (Turn B)
  pub start_kill : Result String (Unit {0})
  pub wait : Result String ExitStatus
  pub items : List (ReaderItem B)

module _ {B : Type 0} where
  -- The arm of the reader, which is there only while the reader is open.
  unfoldable pub handle_read : Option (ReaderItem B) → Supervisor B → Option String × Supervisor B
  unfolding handle_frame
  handle_read (some (ReaderItem.frame frame)) s = (none, handle_frame frame s)
  handle_read (some (ReaderItem.error message)) s = (some message, s)
  handle_read (some ReaderItem.eof) s = (none, record s { reader_open = false })
  handle_read none s = (none, record s { reader_open = false })

  abbrev pub read_reason : Option String × Supervisor B → Option StopReason × Supervisor B
  read_reason (some message, s) = (some (StopReason.transport_failed message), s)
  read_reason (none, s) = (none, s)

  unfoldable pub handle_message :
      Outgoing B → Piped → ActorMessage B → Supervisor B → Option StopReason × Supervisor B
  unfolding handle_request handle_send
  handle_message out pipe (ActorMessage.request command tx) s = handle_request out pipe command tx s
  handle_message out pipe (ActorMessage.cancel request_id) s =
      (none, record s { pending = BTreeMap.remove request_id s.pending })
  handle_message out pipe (ActorMessage.send message tx) s = handle_send out pipe message tx s
  handle_message out pipe (ActorMessage.shutdown tx) s = (some (StopReason.shutdown (some tx)), s)

  unfoldable pub take_turn : Outgoing B → Turn B → Supervisor B → Option StopReason × Supervisor B
  unfolding handle_message handle_read
  take_turn out (Turn.waited status) s = (some (StopReason.child_exited status), s)
  take_turn out (Turn.received none pipe) s = (some (StopReason.shutdown none), s)
  take_turn out (Turn.received (some message) pipe) s = handle_message out pipe message s
  take_turn out (Turn.read item) s = elim s.reader_open [
    | true ↦ read_reason (handle_read item s)
    | false ↦ (none, s)
  ]

  -- The loop, which has no reason to stop while none of the turns gives one.
  unfoldable pub take_turns :
      Outgoing B → List (Turn B) → Supervisor B → Option StopReason × Supervisor B
  unfolding take_turn
  take_turns out [] s = (none, s)
  take_turns out (turn ∷ turns) s =
      let (reason, s') = take_turn out turn s in
      elim reason [ some r ↦ (some r, s') | none ↦ take_turns out turns s' ]

  -- The loop of `shutdown_child` under its timeout, which is over where the turns are: the actor's
  -- messages wait no more, and the reader only while it is open.
  unfoldable pub await_exit :
      List (Turn B) → Supervisor B → Option (Result String ExitStatus) × Supervisor B
  unfolding handle_read
  await_exit [] s = (none, s)
  await_exit (Turn.waited status ∷ turns) s = (some status, s)
  await_exit (Turn.received message pipe ∷ turns) s = await_exit turns s
  await_exit (Turn.read item ∷ turns) s =
      let (failure, s') = handle_read item s in
      let rest = await_exit turns s' in
      elim s.reader_open [
        | false ↦ await_exit turns s
        | true ↦ elim failure [ some message ↦ (some (err message), s') | none ↦ rest ]
      ]

  abbrev pub forced_exit : Ending B → Result String ExitStatus
  forced_exit e = e.start_kill >>= λ done. e.wait

  unfoldable pub shutdown_child : Ending B → Supervisor B → Result String RuntimeExit × Supervisor B
  unfolding await_exit drain_reader
  shutdown_child e s =
      let (graceful, s') = await_exit e.turns s in
      elim graceful [
        | some (ok status) ↦ (ok (exit_from_status status false), drain_reader e.items s')
        | some (err message) ↦ (err message, s')
        | none ↦ elim (forced_exit e) [
          | ok status ↦ (ok (exit_from_status status true), drain_reader e.items s')
          | err message ↦ (err message, s')
        ]
      ]

  -- The answer to the one who asked for the shutdown.
  abbrev pub tell : Option Sender → Result RequestError RuntimeExit → Supervisor B → Supervisor B
  tell none r s = s
  tell (some tx) r s = emit (Effect.stopped tx r) s

  abbrev pub conclude : Option Sender → Result String RuntimeExit × Supervisor B → Supervisor B
  conclude tx (ok exit, s) = tell tx (ok exit) (publish_exit exit s)
  conclude tx (err message, s) = tell tx (err (transport message)) (publish_failure message s)

  -- What follows the loop, up to `fail_pending`.
  unfoldable pub settle_stop : Ending B → StopReason → Supervisor B → Supervisor B
  unfolding shutdown_child drain_reader
  settle_stop e (StopReason.shutdown tx) s = conclude tx (shutdown_child e s)
  settle_stop e (StopReason.child_exited (ok status)) s =
      publish_exit (exit_from_status status false) (drain_reader e.items s)
  settle_stop e (StopReason.child_exited (err message)) s = publish_failure message s
  settle_stop e (StopReason.transport_failed message) s = publish_failure message s

  -- The state at the end of the actor, or none while it is in its loop.
  unfoldable pub run_actor :
      Outgoing B → List (Turn B) → Ending B → Supervisor B → Option (Supervisor B)
  unfolding take_turns settle_stop
  run_actor out turns e s =
      let (reason, s') = take_turns out turns s in
      elim reason [
        | none ↦ none
        | some r ↦ some (fail_pending runtime_stopped (settle_stop e r s'))
      ]

  abbrev pub started : ℕ → Supervisor B
  started process_id = record {
    pending = [];
    reader_open = true;
    prompt = none;
    status = RuntimeStatus.running process_id;
    effects = [];
  }
