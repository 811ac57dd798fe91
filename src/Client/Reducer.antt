-- ===== src/Client/Reducer.antt =====
-- crates/omp-control-client/src/reducer.rs: the replica and what a frame of the server does to it.
pub mod Convergence
pub mod Gaps
use mathlib.Core.Logic.{ite}
use omp_remote.Prelude.{
  ℕ, Bool, true, false, not, Option, none, some, List, [], ◌∷◌, Result, ok, err, ◌>>=◌, ◌>>◌, ok_or,
  map_err, ◌==◌, reject_if, checked_add, is_some, if◌then◌else◌,
}
use omp_remote.Prelude.BTreeMap
use omp_remote.Prelude.BTreeMap.{BTreeMap, contains_key}
use omp_remote.Protocol.Id.{AgentId}
use omp_remote.Protocol.State.{
  AgentSnapshot, EventSequence, SubscriptionCursor, DeltaApplyError, apply_delta,
}
use omp_remote.Protocol.Frame.Types.{
  Payloads, BTreeSet, ServerFrame, StateSnapshot, DeltaEnvelope, EventEnvelope,
  UiInteractionEnvelope, ReplayGap,
}

pub record ReplicatedState : Type 0 where
  pub agents : BTreeMap AgentSnapshot
  pub resync_required : BTreeSet

pub data ReplicationError : Type 0 where
  missing_snapshot : AgentId → ReplicationError
  resync_pending : AgentId → ReplicationError
  non_contiguous_event_sequence : EventSequence → EventSequence → ReplicationError
  event_sequence_exhausted : ReplicationError
  delta : DeltaApplyError → ReplicationError

pub data ReplicationEffect (P : Payloads) : Type 0 where
  state_changed : AgentId → ReplicationEffect P
  event : EventEnvelope P → ReplicationEffect P
  interaction : UiInteractionEnvelope P → ReplicationEffect P
  resync_required : AgentId → ReplicationEffect P

-- `ReplicatedState::default`.
abbrev pub empty : ReplicatedState
empty = record { agents = []; resync_required = [] }

unfoldable pub is_resync_required : ReplicatedState → AgentId → Bool
is_resync_required r agent_id = contains_key agent_id r.resync_required

unfoldable pub cursor : ReplicatedState → AgentId → Option SubscriptionCursor
unfolding is_resync_required
cursor r agent_id =
    if is_resync_required r agent_id then none else elim (BTreeMap.get agent_id r.agents) [
      | none ↦ none
      | some s ↦ some (record {
        agent_id = s.agent_id;
        revision = s.revision;
        event_sequence = s.event_sequence;
      })
    ]

unfoldable pub require_next_sequence :
    EventSequence → EventSequence → Result ReplicationError (Unit {0})
require_next_sequence current incoming = do
  expected ← ok_or (checked_add current 1) event_sequence_exhausted
  reject_if (not (incoming == expected)) (non_contiguous_event_sequence current incoming)

-- The checks that the three closures share: the snapshot of the agent, if the update is its next.
unfoldable pub next_of :
    ReplicatedState → AgentId → EventSequence → Result ReplicationError AgentSnapshot
unfolding require_next_sequence
next_of r agent_id event_sequence = do
  snapshot ← ok_or (BTreeMap.get agent_id r.agents) (missing_snapshot agent_id)
  reject_if (contains_key agent_id r.resync_required) (resync_pending agent_id)
  require_next_sequence snapshot.event_sequence event_sequence
  ok snapshot

abbrev pub mark_resync : ReplicatedState → AgentId → ReplicatedState
mark_resync r agent_id = record r {
  resync_required = BTreeMap.insert agent_id tt r.resync_required;
}

module _ (P : Payloads) where
  abbrev pub Applied : Type 0
  Applied = Result ReplicationError (List (ReplicationEffect P)) × ReplicatedState

  -- The end of an update: a failed one asks for a resynchronisation and changes nothing else.
  unfoldable pub settle :
      ReplicatedState
      → AgentId
      → ReplicationEffect P
      → Result ReplicationError AgentSnapshot
      → Applied
  settle r agent_id effect (err e) = (err e, mark_resync r agent_id)
  settle r agent_id effect (ok s) =
      (ok (effect ∷ []), record r { agents = BTreeMap.insert agent_id s r.agents })

  unfoldable pub apply_snapshot :
      ReplicatedState → List AgentSnapshot → List (ReplicationEffect P) × ReplicatedState
  apply_snapshot r [] = ([], r)
  apply_snapshot r (agent ∷ rest) =
      let r' : ReplicatedState = record {
        agents = BTreeMap.insert agent.agent_id agent r.agents;
        resync_required = BTreeMap.remove agent.agent_id r.resync_required;
      } in
      let (effects, last) = apply_snapshot r' rest in
      (ReplicationEffect.state_changed agent.agent_id ∷ effects, last)

  -- The arm of a delta.
  unfoldable pub apply_delta_frame : ReplicatedState → DeltaEnvelope → Applied
  unfolding next_of settle
  apply_delta_frame r e =
      settle r e.delta.agent_id (ReplicationEffect.state_changed e.delta.agent_id) (
        next_of r e.delta.agent_id e.event_sequence >>= λ s.
        map_err ReplicationError.delta (apply_delta s e.delta e.event_sequence))

  unfoldable pub apply_event : ReplicatedState → EventEnvelope P → Applied
  unfolding next_of settle
  apply_event r e = settle r e.agent_id (ReplicationEffect.event e) (
      next_of r e.agent_id e.event_sequence >>= λ s.
      ok (record s { event_sequence = e.event_sequence }))

  unfoldable pub apply_interaction : ReplicatedState → UiInteractionEnvelope P → Applied
  unfolding next_of settle
  apply_interaction r e = settle r e.agent_id (ReplicationEffect.interaction e) (
      next_of r e.agent_id e.event_sequence >>= λ s.
      ok (record s { event_sequence = e.event_sequence }))

  unfoldable pub apply : ReplicatedState → ServerFrame P → Applied
  unfolding apply_snapshot apply_delta_frame apply_event apply_interaction
  apply r (ServerFrame.snapshot s) =
      let (effects, r') = apply_snapshot r s.agents in (ok effects, r')
  apply r (ServerFrame.delta e) = apply_delta_frame r e
  apply r (ServerFrame.event e) = apply_event r e
  apply r (ServerFrame.interaction_request e) = apply_interaction r e
  apply r (ServerFrame.replay_gap gap) =
      (ok (ReplicationEffect.resync_required gap.agent_id ∷ []), mark_resync r gap.agent_id)
  apply r _ = (ok [], r)

  -- The replica after some frames, the refused ones included.
  unfoldable pub apply_all : ReplicatedState → List (ServerFrame P) → ReplicatedState
  unfolding apply
  apply_all r [] = r
  apply_all r (f ∷ fs) = apply_all (apply r f).1 fs
