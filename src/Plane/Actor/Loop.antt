-- ===== src/Plane/Actor/Loop.antt =====
-- `run_agent_actor`: the commands and the lease's deadline, one after the other.
use omp_remote.Prelude.{none, some, List, [], ◌∷◌, ok, ◌>>=◌, leb, if◌then◌else◌}
use omp_remote.Protocol.State.{AgentSnapshot, AgentUpdate, interaction_changed, unclaimed}
use omp_remote.Plane.Mpsc.{Mpsc}
use omp_remote.Plane.Actor.Types.{AgentActorConfig, Clock, ActorCommand, ActorState, Reply}
use omp_remote.Plane.Actor.Ops.{
  apply_change, publish_event, subscribe, acquire_lease, release_lease,
}

-- What `select!` meets: the deadline, a command, or the end of the commands.
pub data Wakeup (M : Type 0) : Type 0 where
  deadline : Wakeup M
  command : ActorCommand M → Wakeup M
  disconnected : Wakeup M

module _ {M : Type 0} (mpsc : Mpsc (AgentUpdate M)) where
  -- The state at the start of `run_agent_actor`.
  abbrev pub spawned : AgentSnapshot → AgentActorConfig → ActorState mpsc
  spawned s config = record {
    snapshot = s;
    replay = [];
    replay_capacity = config.replay_capacity;
    subscriber_capacity = config.subscriber_capacity;
    subscribers = [];
    lease_deadline = none;
    detached = [];
    next_subscription = 0;
  }

  -- The arm of `sleep_until`, which is there only while a deadline is set and has come.
  unfoldable pub expire : ActorState mpsc → Clock → ActorState mpsc
  unfolding apply_change
  expire st clock = elim st.lease_deadline [
    | none ↦ st
    | some at ↦
        if leb at clock.instant
        then (apply_change mpsc (record st { lease_deadline = none })
            (interaction_changed unclaimed)).1
        else st
  ]

  -- The arm of a command: its reply and the state. `shutdown` ends the loop.
  unfoldable pub handle : ActorState mpsc → Clock → ActorCommand M → Reply M × ActorState mpsc
  unfolding apply_change publish_event subscribe acquire_lease release_lease
  handle st clock ActorCommand.snapshot = (Reply.snapshot st.snapshot, st)
  handle st clock (ActorCommand.change change) =
      let (r, st') = apply_change mpsc st change in (Reply.changed (r >>= λ _. ok tt), st')
  handle st clock (ActorCommand.publish_event event) =
      let (r, st') = publish_event mpsc st event in (Reply.published r, st')
  handle st clock (ActorCommand.subscribe cursor) =
      let (s, st') = subscribe mpsc st cursor in (Reply.subscribed s, st')
  handle st clock (ActorCommand.acquire_lease holder now_ms ttl_ms) =
      let (r, st') = acquire_lease mpsc st clock holder now_ms ttl_ms in (Reply.leased r, st')
  handle st clock (ActorCommand.release_lease holder) =
      let (r, st') = release_lease mpsc st holder in (Reply.released r, st')
  handle st clock ActorCommand.shutdown = (Reply.stopped, st)

  -- The loop over the wakeups, each at a reading of the clock: the last state and the replies.
  unfoldable pub run_agent_actor :
      ActorState mpsc → List (Clock × Wakeup M) → ActorState mpsc × List (Reply M)
  unfolding handle expire
  run_agent_actor st [] = (st, [])
  run_agent_actor st ((clock, Wakeup.deadline) ∷ rest) = run_agent_actor (expire st clock) rest
  run_agent_actor st ((clock, Wakeup.disconnected) ∷ rest) = (st, [])
  run_agent_actor st ((clock, Wakeup.command ActorCommand.shutdown) ∷ rest) =
      (st, Reply.stopped ∷ [])
  run_agent_actor st ((clock, Wakeup.command c) ∷ rest) =
      let (reply, st') = handle st clock c in
      let (last, replies) = run_agent_actor st' rest in (last, reply ∷ replies)
