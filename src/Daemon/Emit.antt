-- ===== src/Daemon/Emit.antt =====
-- crates/ompd/src/server.rs: the frames of an update and of the start of a subscription. The gap
-- goes by the control queue, which the writer empties before the state queue of the snapshot.
use omp_remote.Prelude.{List, [], ◌∷◌, map}
use omp_remote.Protocol.State.{AgentUpdate, delta_update, event_update, SubscriptionStart}
use omp_remote.Protocol.Id.{AgentId}
use omp_remote.Protocol.State.{EventSequence}
use omp_remote.Protocol.Frame.Types.{
  Payloads, ServerMessage, extension_ui, ServerFrame, non_contiguous_cursor,
}

module _ {P : Payloads} where
  -- The frame of an event: a request to the user has a frame of its own.
  unfoldable pub event_frame : AgentId → EventSequence → ServerMessage P → ServerFrame P
  event_frame agent_id q (extension_ui request) =
      ServerFrame.interaction_request
        (record { agent_id = agent_id; event_sequence = q; request = request })
  event_frame agent_id q event =
      ServerFrame.event (record { agent_id = agent_id; event_sequence = q; event = event })

  -- The frame that `emit_update` sends.
  unfoldable pub update_frame : AgentUpdate (ServerMessage P) → ServerFrame P
  unfolding event_frame
  update_frame (delta_update q delta) =
      ServerFrame.delta (record { event_sequence = q; delta = delta })
  update_frame (event_update agent_id q event) = event_frame agent_id q event

  -- The frames that `emit_subscription_start` sends, if the queues have room for them.
  unfoldable pub start_frames : SubscriptionStart (ServerMessage P) → List (ServerFrame P)
  unfolding update_frame
  start_frames (SubscriptionStart.snapshot s) =
      ServerFrame.snapshot (record { agents = s ∷ [] }) ∷ []
  start_frames (SubscriptionStart.replay updates) = map update_frame updates
  start_frames (SubscriptionStart.resync_required s) =
      ServerFrame.replay_gap (record {
        agent_id = s.agent_id;
        current_revision = s.revision;
        current_event_sequence = s.event_sequence;
        reason = non_contiguous_cursor;
      })
      ∷ ServerFrame.snapshot (record { agents = s ∷ [] })
      ∷ []
