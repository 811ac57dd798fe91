-- ===== src/Runtime/Answers/Once.antt =====
-- One request of crates/omp-runtime/src/runtime.rs, from its arrival to the end of the actor.
use omp_remote.Prelude.{
  ◌≡◌, refl, String, some, List, [], ◌∷◌, ◌++◌, Result, ok, err, arith, inl, inr, All, All-append,
  Option-cases,
}
use omp_remote.Prelude.BTreeMap
use omp_remote.Prelude.BTreeMap.{get-insert}
use omp_remote.Runtime.Types.{
  RequestError, Sender, Effect, ClientMessage, CommandKind, ActorMessage, StopReason, Supervisor,
  ExitStatus, runtime_stopped, frame_too_large, timed_out, transport,
}
use omp_remote.Runtime.Ops.{
  Outgoing, Piped, fail_pending, write_message, submit, handle_request, requested,
}
use omp_remote.Runtime.Loop.{
  Turn, Ending, handle_message, take_turn, take_turns, settle_stop, run_actor,
}
use omp_remote.Runtime.Answers.Steps.{
  Leaves, Follows, emitted, turns_followed, settled, failed_once, onwards,
}
use omp_remote.Runtime.Answers.Pending.{waits, waits-insert-own}
use omp_remote.Runtime.Answers.Tracked.{answers, IsOwn, Tracked, answers-append}

module _ {B : Type 0} (r : String) (k : Sender) where
  unanswered-IsOwn : (es : List (Effect B)) → answers k es ≡ 0 → All (IsOwn r k) es
  unanswered-IsOwn [] h = tt
  unanswered-IsOwn (Effect.answer tx (err error) ∷ es) h =
      (tt, unanswered-IsOwn es (ground (arith, h)))
  unanswered-IsOwn (Effect.answer tx (ok a) ∷ es) h =
      (λ p. absurd (ground (arith, h, p)), unanswered-IsOwn es (ground (arith, h)))
  unanswered-IsOwn (Effect.wrote x ∷ es) h = (tt, unanswered-IsOwn es h)
  unanswered-IsOwn (Effect.event x ∷ es) h = (tt, unanswered-IsOwn es h)
  unanswered-IsOwn (Effect.confirm tx x ∷ es) h = (tt, unanswered-IsOwn es h)
  unanswered-IsOwn (Effect.stopped tx x ∷ es) h = (tt, unanswered-IsOwn es h)

  -- A channel that neither waits nor has been answered.
  pub record IsFresh (s : Supervisor B) : Type 0 where
    pub no_wait : waits k s.pending ≡ 0
    pub no_answer : answers k s.effects ≡ 0

  submit-IsFresh :
      (c : CommandKind B) (s : Supervisor B)
      → IsFresh s
      → IsFresh (submit (record { id = r; kind = c }) s)
  submit-IsFresh (CommandKind.prompt x) s h = record {
    no_wait = h.no_wait;
    no_answer = h.no_answer;
  }
  submit-IsFresh (CommandKind.abort_and_prompt x) s h = record {
    no_wait = h.no_wait;
    no_answer = h.no_answer;
  }
  submit-IsFresh (CommandKind.other x) s h = h

  refused :
      (error : RequestError) (s : Supervisor B)
      → IsFresh s
      → Tracked r k s.pending (s.effects ++ (Effect.answer k (err error) ∷ []))
  refused error s h = record {
    progress = ground (
      arith,
      h.no_wait,
      h.no_answer,
      answers-append k s.effects (Effect.answer k (err error) ∷ []),
    );
    own =
        All-append (IsOwn r k) s.effects (Effect.answer k (err error) ∷ [])
          (unanswered-IsOwn s.effects h.no_answer) (tt, tt);
  }

  accepted : (s : Supervisor B) → IsFresh s → Tracked r k (BTreeMap.insert r k s.pending) s.effects
  accepted s h = record {
    progress =
        ground (
          arith,
          h.no_answer,
          get-insert r r k s.pending,
          waits-insert-own k r s.pending h.no_wait,
        );
    own = unanswered-IsOwn s.effects h.no_answer;
  }

  arrived :
      (out : Outgoing B) (c : CommandKind B) (w : Result RequestError (Unit {0})) (s : Supervisor B)
      → IsFresh s
      → Follows r k (requested out (record { id = r; kind = c }) k w s).1
  unfolding requested
  arrived out c (ok done) s h =
      emitted r k _ (record s { pending = BTreeMap.insert r k s.pending }) tt (accepted s h)
  arrived out c (err (frame_too_large x y)) s h = refused _ s h
  arrived out c (err (timed_out x)) s h = refused _ s h
  arrived out c (err (transport x)) s h = refused _ s h
  arrived out c (err runtime_stopped) s h = refused _ s h

  abbrev pub request_turn : Piped → CommandKind B → Turn B
  request_turn pipe c =
      Turn.received (some (ActorMessage.request (record { id = r; kind = c }) k)) pipe

  -- The request's turn, turns that leave it alone, and the child's end.
  abbrev pub episode :
      Piped → CommandKind B → List (Turn B) → Result String ExitStatus → List (Turn B)
  episode pipe c turns status = request_turn pipe c ∷ (turns ++ (Turn.waited status ∷ []))

  stops :
      (out : Outgoing B) (turns : List (Turn B)) (status : Result String ExitStatus)
      (s : Supervisor B)
      → (reason : StopReason) × ((take_turns out (turns ++ (Turn.waited status ∷ [])) s).0
          ≡ some reason)
  unfolding take_turns take_turn
  stops out [] status s = (StopReason.child_exited status, refl)
  stops out (t ∷ turns) status s = elim (Option-cases (take_turn out t s).0) [
    | inl e ↦ rw (e, take_turns) (stops out turns status (take_turn out t s).1)
    | inr (reason, e) ↦ (reason, rw (e, take_turns) refl)
  ]

  followed :
      (out : Outgoing B) (pipe : Piped) (c : CommandKind B) (turns : List (Turn B))
      (status : Result String ExitStatus) (s : Supervisor B)
      → IsFresh s
      → All (Leaves r k) turns
      → Follows r k (take_turns out (episode pipe c turns status) s).1
  unfolding take_turns take_turn handle_message handle_request
  followed out pipe c turns status s h l =
      let after : Follows r k (take_turn out (request_turn pipe c) s).1 =
        arrived out c (write_message out pipe (ClientMessage.command (record { id = r; kind = c })))
          (submit (record { id = r; kind = c }) s) (submit-IsFresh c s h) in
      let rest = turns ++ (Turn.waited status ∷ []) in
      onwards r k out (request_turn pipe c) rest s after (
        turns_followed r k out rest (take_turn out (request_turn pipe c) s).1
          (All-append (Leaves r k) turns (Turn.waited status ∷ []) l (tt, tt)) after)

  -- Over a request whose channel neither waits nor has been answered, turns in which no other
  -- request has its ID or its channel and nobody cancels it, and the child's end, the actor ends;
  -- nothing is pending then, the request has been answered once, and, if not by an error, by a
  -- response with its ID. The pipe may refuse the request or not, and the run may end before the
  -- child does.
  pub request_answered :
      (out : Outgoing B) (pipe : Piped) (c : CommandKind B) (turns : List (Turn B))
      (status : Result String ExitStatus) (e : Ending B) (s : Supervisor B)
      → IsFresh s
      → All (Leaves r k) turns
      → (final : Supervisor B) × (run_actor out (episode pipe c turns status) e s ≡ some final)
        × (final.pending ≡ [])
        × (answers k final.effects ≡ 1)
        × All (IsOwn r k) final.effects
  unfolding run_actor
  request_answered out pipe c turns status e s h l =
      let (reason, x) = stops out (request_turn pipe c ∷ turns) status s in
      let last = settle_stop e reason (take_turns out (episode pipe c turns status) s).1 in
      let once =
        failed_once r k runtime_stopped last
          (settled r k e reason _ (followed out pipe c turns status s h l)) in
      (fail_pending runtime_stopped last, rw (x, run_actor) refl, refl, once.0, once.1)
