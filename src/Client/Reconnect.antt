-- ===== src/Client/Reconnect.antt =====
-- The client and the agent together: crates/omp-control-client/src/reducer.rs,
-- crates/ompd/src/server.rs and crates/omp-control-plane/src/actor.rs.
use omp_remote.Prelude.{
  ◌<◌, ◌≤◌, ◌≡◌, Bool, true, false, List, ◌++◌, arith, ok, ap, sym, ◌∙◌, subst, some, u64_max,
  length, leb, if◌then◌else◌,
}
use omp_remote.Protocol.State.{AgentSnapshot, AgentUpdate, apply_updates, SubscriptionStart}
use omp_remote.Protocol.Frame.Types.{Payloads, ServerMessage}
use omp_remote.Plane.Mpsc.{Mpsc}
use omp_remote.Plane.Actor.Types.{ActorState}
use omp_remote.Plane.Actor.Ops.{subscription_start}
use omp_remote.Plane.Actor.Sequence.{
  Contiguous, Contiguous-left, Contiguous-right, sequence-replayed,
}
use omp_remote.Plane.Actor.History.{Logged}
use omp_remote.Plane.Actor.Replay.{cursor_of}
use omp_remote.Plane.Actor.Catchup.{subscription_start_exact, remaining}
use omp_remote.Daemon.Emit.{start_frames}
use omp_remote.Client.Reducer.{ReplicatedState, cursor, is_resync_required, apply, apply_all}
use omp_remote.Client.Reducer.Convergence.{Holds, updates-Holds, snapshot-Holds}

-- The cursor of a replica is that of the snapshot that it holds.
pub cursor-Holds :
    (r : ReplicatedState) (s : AgentSnapshot) → Holds r s → cursor r s.agent_id ≡ some (cursor_of s)
unfolding cursor is_resync_required
cursor-Holds r s h = ground (arith, h.found, h.trusted)

module _ {P : Payloads} (mpsc : Mpsc (AgentUpdate (ServerMessage P))) (g : AgentSnapshot)
    (st : ActorState mpsc) (before after : List (AgentUpdate (ServerMessage P))) (c : AgentSnapshot)
    (logged : Logged mpsc g (before ++ after) st) (past : apply_updates g before ≡ ok c)
    (in_range : g.revision ≤ u64_max) (not_last : st.snapshot.event_sequence < u64_max)
    (r : ReplicatedState) (holds : Holds r c) where
  start-Holds :
      (b : Bool)
      → Holds
          (apply_all P r (
            start_frames (
              if b
              then SubscriptionStart.replay after
              else SubscriptionStart.resync_required st.snapshot)))
          st.snapshot
  unfolding start_frames
  start-Holds true =
      updates-Holds r c st.snapshot after holds
        (subst (λ n. Contiguous n after)
          (sym (
            sequence-replayed g c before
              (Contiguous-left g.event_sequence before after logged.contiguous) past))
          (Contiguous-right g.event_sequence before after logged.contiguous))
        (remaining mpsc g st before after c logged past in_range) (omega arith)
  start-Holds false = unfold apply_all apply in snapshot-Holds P _ st.snapshot

  -- A client whose replica holds any past snapshot of an agent, and no pending resynchronisation,
  -- subscribes by the replica's cursor and applies the frames that the daemon sends for the start:
  -- its replica then holds the agent's present snapshot, with no resynchronisation pending. The
  -- actor's state has a log of contiguous updates from the first snapshot; the first revision is a
  -- u64 and the event sequence is not at the last u64.
  pub reconnect-Holds :
      Holds
        (apply_all P r (start_frames (subscription_start mpsc st (cursor r c.agent_id))))
        st.snapshot
  reconnect-Holds =
      subst (λ start. Holds (apply_all P r (start_frames start)) st.snapshot)
        (sym (
          ap (subscription_start mpsc st) (cursor-Holds r c holds)
          ∙ subscription_start_exact mpsc g st before after c logged past in_range not_last))
        (start-Holds (leb (length after) (length st.replay)))
