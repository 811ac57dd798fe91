-- ===== src/Runtime/Answers/Steps.antt =====
-- One request of crates/omp-runtime/src/runtime.rs, through the steps of the actor.
use omp_remote.Prelude.{
  ◌≡◌, ◌≢◌, refl, Bool, true, false, String, Option, none, some, List, [], ◌∷◌, Result, ok, err,
  arith, inl, inr, All, All-append, Option-cases, Bool-cases,
}
use omp_remote.Prelude.BTreeMap
use omp_remote.Prelude.BTreeMap.{get-insert}
use omp_remote.Runtime.Types.{
  RequestError, Response, response_id, Sender, Effect, ClientMessage, RuntimeExit, Command,
  CommandKind, ActorMessage, ReaderItem, ServerMessage, StopReason, Supervisor, ExitStatus,
  RuntimeStatus, runtime_stopped, frame_too_large, timed_out, transport,
}
use omp_remote.Runtime.Prompt.{update_prompt_status}
use omp_remote.Runtime.Ops.{
  Outgoing, emit, fail_all, fail_pending, route_response, handle_frame, handle_reader_item,
  drain_reader, submit, handle_request, handle_send, requested, sent, publish_exit, publish_failure,
  exit_from_status,
}
use omp_remote.Runtime.Loop.{
  Turn, Ending, handle_read, read_reason, handle_message, take_turn, take_turns, await_exit,
  forced_exit, shutdown_child, conclude, settle_stop,
}
use omp_remote.Runtime.Answers.Tracked.{
  answers, IsOwn, IsQuiet, Tracked, answers-append, answers-fail_all, fail_all-IsOwn, Tracked-quiet,
  Tracked-error, Tracked-insert, Tracked-remove, Tracked-respond,
}

module _ {B : Type 0} (r : String) (k : Sender) where
  -- A turn that leaves the request alone: no other one has its ID or its channel, and it is not
  -- cancelled.
  abbrev pub Leaves : Turn B → Type 0
  Leaves (Turn.received (some (ActorMessage.request command tx)) pipe) = (command.id ≢ r) × (tx ≢ k)
  Leaves (Turn.received (some (ActorMessage.cancel request_id)) pipe) = request_id ≢ r
  Leaves _ = Unit

  abbrev pub Follows : Supervisor B → Type 0
  Follows s = Tracked r k s.pending s.effects

  pub emitted : (e : Effect B) (s : Supervisor B) → IsQuiet e → Follows s → Follows (emit e s)
  emitted e s q h = Tracked-quiet r k s.pending s.effects h e q

  routed : (a : Response B) (s : Supervisor B) → Follows s → Follows (route_response a s)
  unfolding route_response
  routed a s h = go (response_id a) refl
    where
      found :
          (i : String) (tx : Option Sender)
          → response_id a ≡ some i
          → BTreeMap.get i s.pending ≡ tx
          → Follows (route_response a s)
      found i none e g = rw (e, g, route_response) (emitted _ s tt h)
      found i (some tx) e g =
          rw (e, g, route_response) (Tracked-respond r k s.pending s.effects h i tx a g e)

      go : (i : Option String) → response_id a ≡ i → Follows (route_response a s)
      go none e = rw (e, route_response) (emitted _ s tt h)
      go (some i) e = found i (BTreeMap.get i s.pending) e refl

  framed : (f : ServerMessage B) (s : Supervisor B) → Follows s → Follows (handle_frame f s)
  unfolding handle_frame
  framed (ServerMessage.response a) s h =
      routed a (record s { prompt = update_prompt_status (ServerMessage.response a) s.prompt }) h
  framed (ServerMessage.ready n b) s h = emitted _ s tt h
  framed (ServerMessage.prompt_result i b) s h = emitted _ s tt h
  framed ServerMessage.agent_start s h = emitted _ s tt h
  framed (ServerMessage.agent_end x) s h = emitted _ s tt h
  framed (ServerMessage.other x) s h = emitted _ s tt h

  drained :
      (items : List (ReaderItem B)) (s : Supervisor B) → Follows s → Follows (drain_reader items s)
  unfolding drain_reader handle_reader_item
  drained [] s h = h
  drained (ReaderItem.frame f ∷ items) s h = drained items (handle_frame f s) (framed f s h)
  drained (ReaderItem.error x ∷ items) s h = emitted _ s tt h
  drained (ReaderItem.eof ∷ items) s h = h

  has_read :
      (item : Option (ReaderItem B)) (s : Supervisor B) → Follows s → Follows (handle_read item s).1
  unfolding handle_read
  has_read (some (ReaderItem.frame f)) s h = framed f s h
  has_read (some (ReaderItem.error x)) s h = h
  has_read (some ReaderItem.eof) s h = h
  has_read none s h = h

  submitted :
      (c : CommandKind B) (i : String) (s : Supervisor B)
      → Follows s
      → Follows (submit (record { id = i; kind = c }) s)
  submitted (CommandKind.prompt x) i s h = h
  submitted (CommandKind.abort_and_prompt x) i s h = h
  submitted (CommandKind.other x) i s h = h

  after_request :
      (out : Outgoing B) (c : Command B) (tx : Sender) (w : Result RequestError (Unit {0}))
      (s : Supervisor B)
      → c.id ≢ r
      → tx ≢ k
      → Follows s
      → Follows (requested out c tx w s).1
  unfolding requested
  after_request out c tx (ok done) s n d h =
      emitted (Effect.wrote (ClientMessage.command c))
        (record s { pending = BTreeMap.insert c.id tx s.pending }) tt
        (Tracked-insert r k s.pending s.effects h c.id tx n d)
  after_request out c tx (err (frame_too_large x y)) s n d h =
      Tracked-error r k s.pending s.effects h tx _ d
  after_request out c tx (err (timed_out x)) s n d h =
      Tracked-error r k s.pending s.effects h tx _ d
  after_request out c tx (err (transport x)) s n d h =
      Tracked-error r k s.pending s.effects h tx _ d
  after_request out c tx (err runtime_stopped) s n d h =
      Tracked-error r k s.pending s.effects h tx _ d

  after_send :
      (out : Outgoing B) (m : ClientMessage B) (tx : Sender) (w : Result RequestError (Unit {0}))
      (s : Supervisor B)
      → Follows s
      → Follows (sent out m tx w s).1
  unfolding sent
  after_send out m tx (ok done) s h =
      emitted (Effect.confirm tx (ok tt)) (emit (Effect.wrote m) s) tt
        (emitted (Effect.wrote m) s tt h)
  after_send out m tx (err (frame_too_large x y)) s h = emitted _ s tt h
  after_send out m tx (err (timed_out x)) s h = emitted _ s tt h
  after_send out m tx (err (transport x)) s h = emitted _ s tt h
  after_send out m tx (err runtime_stopped) s h = emitted _ s tt h

  has_read_reason : (x : Option String × Supervisor B) → Follows x.1 → Follows (read_reason x).1
  has_read_reason (none, s) h = h
  has_read_reason (some message, s) h = h

  turned :
      (out : Outgoing B) (t : Turn B) (s : Supervisor B)
      → Leaves t
      → Follows s
      → Follows (take_turn out t s).1
  unfolding take_turn handle_message handle_request handle_send
  turned out (Turn.waited status) s l h = h
  turned out (Turn.received none pipe) s l h = h
  turned out (Turn.received (some (ActorMessage.request c tx)) pipe) s l h =
      after_request out c tx _ (submit c s) l.0 l.1 (submitted c.kind c.id s h)
  turned out (Turn.received (some (ActorMessage.cancel i)) pipe) s l h =
      Tracked-remove r k s.pending s.effects h i l
  turned out (Turn.received (some (ActorMessage.send m tx)) pipe) s l h = after_send out m tx _ s h
  turned out (Turn.received (some (ActorMessage.shutdown tx)) pipe) s l h = h
  turned out (Turn.read item) s l h = go s.reader_open refl
    where
      go : (b : Bool) → s.reader_open ≡ b → Follows (take_turn out (Turn.read item) s).1
      go true e = rw (e, take_turn) (has_read_reason (handle_read item s) (has_read item s h))
      go false e = rw (e, take_turn) h

  pub onwards :
      (out : Outgoing B) (t : Turn B) (turns : List (Turn B)) (s : Supervisor B)
      → Follows (take_turn out t s).1
      → Follows (take_turns out turns (take_turn out t s).1).1
      → Follows (take_turns out (t ∷ turns) s).1
  unfolding take_turns
  onwards out t turns s after rest = elim (Option-cases (take_turn out t s).0) [
    | inl e ↦ rw (e, take_turns) rest
    | inr (reason, e) ↦ rw (e, take_turns) after
  ]

  pub turns_followed :
      (out : Outgoing B) (turns : List (Turn B)) (s : Supervisor B)
      → All Leaves turns
      → Follows s
      → Follows (take_turns out turns s).1
  unfolding take_turns
  turns_followed out [] s l h = h
  turns_followed out (t ∷ turns) s l h =
      let after = turned out t s l.0 h in
      onwards out t turns s after (turns_followed out turns (take_turn out t s).1 l.1 after)

  awaited : (turns : List (Turn B)) (s : Supervisor B) → Follows s → Follows (await_exit turns s).1
  unfolding await_exit
  awaited [] s h = h
  awaited (Turn.waited status ∷ turns) s h = h
  awaited (Turn.received message pipe ∷ turns) s h = awaited turns s h
  awaited (Turn.read item ∷ turns) s h = elim (Bool-cases s.reader_open) [
    | inr e ↦ rw (e, await_exit) (awaited turns s h)
    | inl e ↦ elim (Option-cases (handle_read item s).0) [
      | inl f ↦ rw (e, f, await_exit) (awaited turns (handle_read item s).1 (has_read item s h))
      | inr (message, f) ↦ rw (e, f, await_exit) (has_read item s h)
    ]
  ]

  concluded :
      (tx : Option Sender) (x : Result String RuntimeExit × Supervisor B)
      → Follows x.1
      → Follows (conclude tx x)
  concluded none (ok exit, s) h = emitted _ (record s { status = RuntimeStatus.exited exit }) tt h
  concluded none (err message, s) h =
      emitted _ (record s { status = RuntimeStatus.failed message }) tt h
  concluded (some tx) (ok exit, s) h =
      emitted _ (publish_exit exit s) tt
        (emitted _ (record s { status = RuntimeStatus.exited exit }) tt h)
  concluded (some tx) (err message, s) h =
      emitted _ (publish_failure message s) tt
        (emitted _ (record s { status = RuntimeStatus.failed message }) tt h)

  shut_down : (e : Ending B) (s : Supervisor B) → Follows s → Follows (shutdown_child e s).1
  unfolding shutdown_child
  shut_down e s h = go (await_exit e.turns s).0 refl (forced_exit e) refl
    where
      after : Follows (await_exit e.turns s).1
      after = awaited e.turns s h

      go :
          (x : Option (Result String ExitStatus))
          → (await_exit e.turns s).0 ≡ x
          → (y : Result String ExitStatus) → forced_exit e ≡ y
          → Follows (shutdown_child e s).1
      go (some (ok status)) p y q = rw (p, shutdown_child) (drained e.items _ after)
      go (some (err message)) p y q = rw (p, shutdown_child) after
      go none p (ok status) q = rw (p, q, shutdown_child) (drained e.items _ after)
      go none p (err message) q = rw (p, q, shutdown_child) after

  pub settled :
      (e : Ending B) (reason : StopReason) (s : Supervisor B)
      → Follows s
      → Follows (settle_stop e reason s)
  unfolding settle_stop
  settled e (StopReason.shutdown tx) s h = concluded tx (shutdown_child e s) (shut_down e s h)
  settled e (StopReason.child_exited (ok status)) s h =
      emitted _
        (record (drain_reader e.items s) {
          status = RuntimeStatus.exited (exit_from_status status false);
        })
        tt (drained e.items s h)
  settled e (StopReason.child_exited (err message)) s h =
      emitted _ (record s { status = RuntimeStatus.failed message }) tt h
  settled e (StopReason.transport_failed message) s h =
      emitted _ (record s { status = RuntimeStatus.failed message }) tt h

  -- Whatever still waits at the end is answered then.
  pub failed_once :
      (error : RequestError) (s : Supervisor B)
      → Follows s
      → (answers k (fail_pending error s).effects ≡ 1)
        × All (IsOwn r k) (fail_pending error s).effects
  failed_once error s h = (
    ground (
      arith,
      h.progress,
      answers-append k s.effects (fail_all error s.pending),
      answers-fail_all B k error s.pending,
    ),
    All-append (IsOwn r k) s.effects (fail_all error s.pending) h.own
        (fail_all-IsOwn B r k error s.pending),
  )
