-- ===== src/Plane/Handle.antt =====
-- The methods of `AgentHandle` in crates/omp-control-plane/src/actor.rs: a command goes to the task of
-- the handle, which answers it. A task that panics answers nothing, and is gone.
pub mod Owner
pub mod Alive
use omp_remote.Prelude.{ℕ, Option, none, some, List, Result, ok, err}
use omp_remote.Prelude.NumMap
use omp_remote.Protocol.Id.{RunId, LeaseHolderId}
use omp_remote.Protocol.State.{
  AgentSnapshot, AgentUpdate, AgentLifecycle, AgentStateChange, lifecycle_changed, session_changed,
  session_cleared, run_upserted, run_removed, available_commands_changed, SessionSummary,
  RunSnapshot, AvailableSlashCommand, EventSequence, InteractionLease, SubscriptionCursor,
}
use omp_remote.Plane.Mpsc.{Mpsc}
use omp_remote.Plane.Actor.Types.{
  AgentError, stopped, Fault, failed, panicked, Clock, ActorCommand, ActorState, AgentSubscription,
  Reply,
}
use omp_remote.Plane.Actor.Loop.{handle}
use omp_remote.Plane.Registry.{AgentHandle, AgentRegistry}

-- What a oneshot channel gives: the answer, or the error of a sender that was dropped.
abbrev pub answered : {A : Type 0} → Result Fault A → Result AgentError A
answered (ok a) = ok a
answered (err (failed e)) = err e
answered (err panicked) = err stopped

abbrev pub panics : {A : Type 0} → Result Fault A → Option (Unit {0})
panics (err panicked) = some tt
panics _ = none

module _ {M : Type 0} where
  abbrev pub has_panicked : Reply M → Option (Unit {0})
  has_panicked (Reply.changed r) = panics r
  has_panicked (Reply.published r) = panics r
  has_panicked (Reply.leased r) = panics r
  has_panicked (Reply.released r) = panics r
  has_panicked (Reply.snapshot s) = none
  has_panicked (Reply.subscribed s) = none
  has_panicked Reply.stopped = none

  abbrev pub snapshot_reply : Reply M → Result AgentError AgentSnapshot
  snapshot_reply (Reply.snapshot s) = ok s
  snapshot_reply _ = err stopped

  abbrev pub changed_reply : Reply M → Result AgentError (Unit {0})
  changed_reply (Reply.changed r) = answered r
  changed_reply _ = err stopped

  abbrev pub published_reply : Reply M → Result AgentError EventSequence
  published_reply (Reply.published r) = answered r
  published_reply _ = err stopped

  abbrev pub subscribed_reply : Reply M → Result AgentError (AgentSubscription M)
  subscribed_reply (Reply.subscribed s) = ok s
  subscribed_reply _ = err stopped

  abbrev pub leased_reply : Reply M → Result AgentError InteractionLease
  leased_reply (Reply.leased r) = answered r
  leased_reply _ = err stopped

  abbrev pub released_reply : Reply M → Result AgentError (Unit {0})
  released_reply (Reply.released r) = answered r
  released_reply _ = err stopped

module _ {M : Type 0} (mpsc : Mpsc (AgentUpdate M)) (clock : Clock) (h : AgentHandle) where
  abbrev pub Asks : Type 0 → Type 0
  Asks A = AgentRegistry mpsc → Result AgentError A × AgentRegistry mpsc

  -- What the task is after a command.
  abbrev pub settle : Reply M × ActorState mpsc → AgentRegistry mpsc → AgentRegistry mpsc
  settle (reply, st) r = elim (has_panicked reply) [
    | none ↦ record r { tasks = NumMap.insert h.command_tx st r.tasks }
    | some _ ↦ record r { tasks = NumMap.remove h.command_tx r.tasks }
  ]

  -- `send`, and the wait for the answer.
  unfoldable pub ask : {A : Type 0} → (Reply M → Result AgentError A) → ActorCommand M → Asks A
  unfolding handle
  ask read c r = elim (NumMap.get h.command_tx r.tasks) [
    | none ↦ (err stopped, r)
    | some st ↦ (read (handle mpsc st clock c).0, settle (handle mpsc st clock c) r)
  ]

  abbrev pub snapshot : Asks AgentSnapshot
  snapshot = ask snapshot_reply ActorCommand.snapshot

  abbrev pub change : AgentStateChange → Asks (Unit {0})
  change c = ask changed_reply (ActorCommand.change c)

  abbrev pub set_lifecycle : AgentLifecycle → Asks (Unit {0})
  set_lifecycle lifecycle = change (lifecycle_changed lifecycle)

  abbrev pub set_session : SessionSummary → Asks (Unit {0})
  set_session session = change (session_changed session)

  abbrev pub clear_session : Asks (Unit {0})
  clear_session = change session_cleared

  abbrev pub upsert_run : RunSnapshot → Asks (Unit {0})
  upsert_run run = change (run_upserted run)

  abbrev pub remove_run : RunId → Asks (Unit {0})
  remove_run run_id = change (run_removed run_id)

  abbrev pub set_available_commands : List AvailableSlashCommand → Asks (Unit {0})
  set_available_commands commands = change (available_commands_changed commands)

  abbrev pub publish_event : M → Asks EventSequence
  publish_event event = ask published_reply (ActorCommand.publish_event event)

  abbrev pub subscribe : Option SubscriptionCursor → Asks (AgentSubscription M)
  subscribe cursor = ask subscribed_reply (ActorCommand.subscribe cursor)

  abbrev pub acquire_interaction_lease : LeaseHolderId → ℕ → ℕ → Asks InteractionLease
  acquire_interaction_lease holder now_ms ttl_ms =
      ask leased_reply (ActorCommand.acquire_lease holder now_ms ttl_ms)

  abbrev pub release_interaction_lease : LeaseHolderId → Asks (Unit {0})
  release_interaction_lease holder = ask released_reply (ActorCommand.release_lease holder)
