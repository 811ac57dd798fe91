-- ===== src/Plane/Actor/Types.antt =====
-- The data of actor.rs. `M` is the type of the published events, and `mpsc` the channels.
use omp_remote.Prelude.{ℕ, Bool, Option, List, Result}
use omp_remote.Protocol.Id.{LeaseHolderId}
use omp_remote.Protocol.State.{
  AgentSnapshot, AgentStateChange, AgentUpdate, EventSequence, InteractionLease, SubscriptionCursor,
  SubscriptionStart,
}
use omp_remote.Plane.Mpsc.{Mpsc}

pub record AgentActorConfig : Type 0 where
  pub replay_capacity : ℕ
  pub subscriber_capacity : ℕ

pub data InteractionLeaseError : Type 0 where
  held_by_other : InteractionLease → InteractionLeaseError
  not_held : InteractionLeaseError
  not_holder : LeaseHolderId → InteractionLeaseError
  expiry_overflow duration_too_large : InteractionLeaseError

pub data AgentError : Type 0 where
  stopped revision_exhausted event_sequence_exhausted : AgentError
  interaction_lease : InteractionLeaseError → AgentError

-- An operation fails with an `AgentError`, or panics at its `expect`.
pub data Fault : Type 0 where
  failed : AgentError → Fault
  panicked : Fault

pub data SubscriptionError : Type 0 where
  resync_required closed : SubscriptionError

-- The reading of the monotonic clock, in milliseconds, and the last instant that it can represent.
pub record Clock : Type 0 where
  pub instant : ℕ
  pub last_instant : ℕ

pub data ActorCommand (M : Type 0) : Type 0 where
  snapshot : ActorCommand M
  change : AgentStateChange → ActorCommand M
  publish_event : M → ActorCommand M
  subscribe : Option SubscriptionCursor → ActorCommand M
  acquire_lease : LeaseHolderId → ℕ → ℕ → ActorCommand M
  release_lease : LeaseHolderId → ActorCommand M
  shutdown : ActorCommand M

-- A subscription's channel and flag, which its `Subscriber` and its `AgentSubscription` share. The
-- number tells the subscriptions of an actor apart.
pub record Subscriber {M : Type 0} (mpsc : Mpsc (AgentUpdate M)) : Type 0 where
  pub subscription : ℕ
  pub updates : mpsc.Channel
  pub resync_required : Bool

-- `subscribers` are those whose sender the actor holds. Those that it dropped stay in `detached`,
-- where their receivers still read them.
pub record ActorState {M : Type 0} (mpsc : Mpsc (AgentUpdate M)) : Type 0 where
  pub snapshot : AgentSnapshot
  pub replay : List (AgentUpdate M)
  pub replay_capacity : ℕ
  pub subscriber_capacity : ℕ
  pub subscribers : List (Subscriber mpsc)
  pub lease_deadline : Option ℕ
  pub detached : List (Subscriber mpsc)
  pub next_subscription : ℕ

-- What `subscribe` returns: where to start, and which subscription to read.
pub record AgentSubscription (M : Type 0) : Type 0 where
  pub start : SubscriptionStart M
  pub subscription : ℕ

pub data Reply (M : Type 0) : Type 0 where
  snapshot : AgentSnapshot → Reply M
  changed : Result Fault (Unit {0}) → Reply M
  published : Result Fault EventSequence → Reply M
  subscribed : AgentSubscription M → Reply M
  leased : Result Fault InteractionLease → Reply M
  released : Result Fault (Unit {0}) → Reply M
  stopped : Reply M
