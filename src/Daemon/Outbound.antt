-- ===== src/Daemon/Outbound.antt =====
-- The queues to a client and the task that writes them, of crates/ompd/src/server.rs: `Outbound`,
-- `emit_subscription_start` and `run_writer`. The bytes of a number are an argument.
use omp_remote.Prelude.{
  ℕ, ◌*◌, Bool, true, false, ◌&&◌, Option, none, some, List, [], ◌∷◌, ◌++◌, Result, ok, err, length,
  ltb, if◌then◌else◌,
}
use omp_remote.Protocol.State.{AgentSnapshot, AgentUpdate, SubscriptionStart}
use omp_remote.Protocol.Frame.Types.{
  Payloads, ServerMessage, ServerFrame, ReplayGap, ReplayGapReason, non_contiguous_cursor,
  slow_consumer,
}
use omp_remote.Protocol.Codec.{Bytes, Cbor, encode}
use omp_remote.Daemon.Greeting.{Message, binary, ping}
use omp_remote.Daemon.Emit.{update_frame}
pub mod Order

pub data OutboundPayload (P : Payloads) : Type 0 where
  protocol : ServerFrame P → OutboundPayload P
  web_socket : Message → OutboundPayload P

-- `Outbound` and `OutboundQueues`, the two ends of three channels. In `control` and `response` are also
-- the payloads whose senders wait for room; `state` has only what found room at once.
pub record Outbound (P : Payloads) : Type 0 where
  pub capacity : ℕ
  pub control : List (OutboundPayload P)
  pub response : List (OutboundPayload P)
  pub state : List (OutboundPayload P)
  pub receiving : Bool

module _ {P : Payloads} where
  -- `Outbound::new`.
  abbrev pub new_outbound : ℕ → Outbound P
  new_outbound capacity = record {
    capacity = if ltb capacity 1 then 1 else capacity;
    control = [];
    response = [];
    state = [];
    receiving = true;
  }

  -- Whether a payload was taken; a `send` fails once the receiver is gone.
  abbrev pub send_control : OutboundPayload P → Outbound P → Bool × Outbound P
  send_control payload q =
      if q.receiving then (true, record q { control = q.control ++ payload ∷ [] }) else (false, q)

  unfoldable pub control : ServerFrame P → Outbound P → Bool × Outbound P
  control frame q = send_control (protocol frame) q

  unfoldable pub websocket : Message → Outbound P → Bool × Outbound P
  websocket message q = send_control (web_socket message) q

  unfoldable pub response : ServerFrame P → Outbound P → Bool × Outbound P
  response frame q =
      if q.receiving
      then (true, record q { response = q.response ++ protocol frame ∷ [] })
      else (false, q)

  -- `try_send`.
  unfoldable pub state : ServerFrame P → Outbound P → Bool × Outbound P
  state frame q =
      if q.receiving && ltb (length q.state) q.capacity
      then (true, record q { state = q.state ++ protocol frame ∷ [] })
      else (false, q)

  unfoldable pub emit_update : AgentUpdate (ServerMessage P) → Outbound P → Bool × Outbound P
  unfolding state
  emit_update update q = state (update_frame update) q

  -- The loop over a replay, which ends at the first update that finds no room.
  unfoldable pub emit_updates : List (AgentUpdate (ServerMessage P)) → Outbound P → Outbound P
  unfolding emit_update
  emit_updates [] q = q
  emit_updates (u ∷ us) q =
      let (sent, q') = emit_update u q in let rest = emit_updates us q' in if sent then rest else q'

  abbrev pub replay_gap : ReplayGapReason → AgentSnapshot → ServerFrame P
  replay_gap reason s = ServerFrame.replay_gap (record {
    agent_id = s.agent_id;
    current_revision = s.revision;
    current_event_sequence = s.event_sequence;
    reason = reason;
  })

  abbrev pub snapshot_frame : AgentSnapshot → ServerFrame P
  snapshot_frame s = ServerFrame.snapshot (record { agents = s ∷ [] })

  unfoldable pub emit_subscription_start :
      SubscriptionStart (ServerMessage P) → Outbound P → Outbound P
  unfolding emit_updates control state
  emit_subscription_start (SubscriptionStart.snapshot s) q = (state (snapshot_frame s) q).1
  emit_subscription_start (SubscriptionStart.replay updates) q = emit_updates updates q
  emit_subscription_start (SubscriptionStart.resync_required s) q =
      (state (snapshot_frame s) (control (replay_gap non_contiguous_cursor s) q).1).1

  -- With what the agent answers when it is asked for its snapshot.
  unfoldable pub send_slow_consumer_gap :
      {E : Type 0} → Result E AgentSnapshot → Outbound P → Outbound P
  unfolding control
  send_slow_consumer_gap (ok s) q = (control (replay_gap slow_consumer s) q).1
  send_slow_consumer_gap (err e) q = q

  -- The first arms of `select!`, which is biased: the control queue goes first, the state queue last.
  abbrev pub first_of :
      List (OutboundPayload P)
      → List (OutboundPayload P)
      → List (OutboundPayload P)
      → Outbound P
      → Option (OutboundPayload P × Outbound P)
  first_of (p ∷ ps) rs ss q = some (p, record q { control = ps })
  first_of [] (p ∷ rs) ss q = some (p, record q { response = rs })
  first_of [] [] (p ∷ ss) q = some (p, record q { state = ss })
  first_of [] [] [] q = none

  unfoldable pub next_payload : Outbound P → Option (OutboundPayload P × Outbound P)
  next_payload q = first_of q.control q.response q.state q

-- A round of the writer's loop: what the clocks say at a tick of the heartbeat, if it waits for one,
-- and whether the message that it sends gets through in time.
pub record Round : Type 0 where
  pub idle_ms : ℕ
  pub unix_time_ms : ℕ
  pub delivered : Bool

module _ {P : Payloads} (cbor : Cbor (ServerFrame P)) (limit : ℕ) (interval_ms : ℕ)
    (to_be_bytes : ℕ → Bytes) where
  -- `match payload`; a frame that cannot be encoded ends the loop.
  unfoldable pub message_of : OutboundPayload P → Option Message
  unfolding encode
  message_of (protocol frame) = elim (encode cbor limit frame) [
    | ok bytes ↦ some (binary bytes)
    | err e ↦ none
  ]
  message_of (web_socket message) = some message

  -- The arm of the heartbeat: a client that was silent for two intervals ends the loop.
  abbrev pub heartbeat : Round → Outbound P → Option (OutboundPayload P × Outbound P)
  heartbeat r q =
      if ltb (interval_ms * 2) r.idle_ms
      then none
      else some (web_socket (ping (to_be_bytes r.unix_time_ms)), q)

  unfoldable pub take_payload : Round → Outbound P → Option (OutboundPayload P × Outbound P)
  unfolding next_payload
  take_payload r q = elim (next_payload q) [ some taken ↦ some taken | none ↦ heartbeat r q ]

  -- What the loop sends, and the queues that it leaves; its end drops the receivers.
  unfoldable pub run_writer : List Round → Outbound P → List Message × Outbound P
  unfolding take_payload message_of
  run_writer [] q = ([], q)
  run_writer (r ∷ rs) q =
      let later = run_writer rs in
      elim (take_payload r q) [
        | none ↦ ([], record q { receiving = false })
        | some (payload, q') ↦ elim (message_of payload) [
          | none ↦ ([], record q' { receiving = false })
          | some m ↦
              let (ms, q'') = later q' in
              if r.delivered then (m ∷ ms, q'') else ([], record q' { receiving = false })
        ]
      ]
