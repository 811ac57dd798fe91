-- ===== src/Plane/Actor/Ops.antt =====
-- The operations of `ActorState`. Each returns its result and the state, since what was written
-- before an error stays written.
use omp_remote.Prelude.{
  ℕ, suc, ◌+◌, false, ◌&&◌, Option, none, some, [], ◌∷◌, ◌++◌, Result, ok, err, ◌>>=◌, ◌>>◌, ok_or,
  ltb, if◌then◌else◌, checked_add,
}
use omp_remote.Protocol.Id.{LeaseHolderId}
use omp_remote.Protocol.State.{
  AgentSnapshot, AgentStateChange, interaction_changed, AgentUpdate, delta_update, event_update,
  StateDelta, EventSequence, InteractionLease, InteractionState, unclaimed, leased,
  SubscriptionCursor, SubscriptionStart, would_change, apply_delta,
}
use omp_remote.Plane.Mpsc.{Mpsc}
use omp_remote.Plane.Actor.Types.{
  AgentError, revision_exhausted, event_sequence_exhausted, interaction_lease,
  InteractionLeaseError, held_by_other, not_held, not_holder, expiry_overflow, duration_too_large,
  Fault, failed, panicked, Clock, ActorState, AgentSubscription,
}
use omp_remote.Plane.Actor.Log.{differs, start_for, record_update}

unfoldable pub next_event_sequence : AgentSnapshot → Result AgentError EventSequence
next_event_sequence s = ok_or (checked_add s.event_sequence 1) event_sequence_exhausted

-- The delta that `apply_change` makes of a change, with its sequence.
unfoldable pub delta_for :
    AgentSnapshot → AgentStateChange → Result AgentError (StateDelta × EventSequence)
unfolding next_event_sequence
delta_for s change = do
  revision ← ok_or (checked_add s.revision 1) revision_exhausted
  event_sequence ← next_event_sequence s
  ok (
    record {
      agent_id = s.agent_id;
      base_revision = s.revision;
      revision = revision;
      change = change;
    },
    event_sequence,
  )

-- A lease that has not run out keeps others away.
unfoldable pub check_free :
    InteractionState → LeaseHolderId → ℕ → Result InteractionLeaseError (Unit {0})
check_free unclaimed holder now_ms = ok tt
check_free (leased lease) holder now_ms =
    if ltb now_ms lease.expires_at_ms && differs lease.holder holder
    then err (held_by_other lease)
    else ok tt

-- The deadline in the monotonic clock, if it can be represented.
unfoldable pub lease_deadline : Clock → ℕ → Option ℕ
lease_deadline clock ttl_ms =
    if ltb clock.last_instant (clock.instant + ttl_ms) then none else some (clock.instant + ttl_ms)

-- The checks of `acquire_lease`: the lease to grant and the deadline to set.
unfoldable pub grant :
    InteractionState
    → Clock
    → LeaseHolderId
    → ℕ
    → ℕ
    → Result InteractionLeaseError (InteractionLease × ℕ)
unfolding check_free lease_deadline
grant interaction clock holder now_ms ttl_ms = do
  check_free interaction holder now_ms
  expires_at_ms ← ok_or (checked_add now_ms ttl_ms) expiry_overflow
  deadline ← ok_or (lease_deadline clock ttl_ms) duration_too_large
  ok (record { holder = holder; expires_at_ms = expires_at_ms }, deadline)

-- The checks of `release_lease`.
unfoldable pub may_release :
    InteractionState → LeaseHolderId → Result InteractionLeaseError (Unit {0})
may_release unclaimed holder = err not_held
may_release (leased lease) holder =
    if differs lease.holder holder then err (not_holder lease.holder) else ok tt

module _ {M : Type 0} (mpsc : Mpsc (AgentUpdate M)) where
  abbrev pub Returns : Type 0 → Type 0
  Returns A = Result Fault A × ActorState mpsc

  -- The end of `apply_change`: the snapshot takes the delta, which is then recorded.
  unfoldable pub install :
      ActorState mpsc → Result AgentError (StateDelta × EventSequence) → Returns (Option StateDelta)
  install st (err e) = (err (failed e), st)
  install st (ok (delta, event_sequence)) = elim (apply_delta st.snapshot delta event_sequence) [
    | err e ↦ (err panicked, st)
    | ok s ↦ (
      ok (some delta),
      record_update mpsc (record st { snapshot = s }) (delta_update event_sequence delta),
    )
  ]

  unfoldable pub apply_change : ActorState mpsc → AgentStateChange → Returns (Option StateDelta)
  unfolding install delta_for
  apply_change st change =
      if would_change st.snapshot change
      then install st (delta_for st.snapshot change)
      else (ok none, st)

  unfoldable pub publish_event : ActorState mpsc → M → Returns EventSequence
  unfolding next_event_sequence
  publish_event st event = elim (next_event_sequence st.snapshot) [
    | err e ↦ (err (failed e), st)
    | ok q ↦ (
      ok q,
      record_update mpsc (record st { snapshot = record st.snapshot { event_sequence = q } })
          (event_update st.snapshot.agent_id q event),
    )
  ]

  -- `subscription_start`, and the whole snapshot where no cursor is given.
  unfoldable pub subscription_start :
      ActorState mpsc → Option SubscriptionCursor → SubscriptionStart M
  unfolding start_for
  subscription_start st none = SubscriptionStart.snapshot st.snapshot
  subscription_start st (some cursor) = start_for st.snapshot st.replay cursor

  unfoldable pub subscribe :
      ActorState mpsc → Option SubscriptionCursor → AgentSubscription M × ActorState mpsc
  unfolding subscription_start
  subscribe st cursor =
      let n = st.next_subscription in
      (
        record { start = subscription_start st cursor; subscription = n },
        record st {
          subscribers =
              st.subscribers
              ++ record {
                subscription = n;
                updates = mpsc.channel st.subscriber_capacity;
                resync_required = false;
              }
                ∷ [];
          next_subscription = suc n;
        },
      )

  -- `acquire_lease`, once its checks are made.
  unfoldable pub take_lease :
      ActorState mpsc
      → Result InteractionLeaseError (InteractionLease × ℕ)
      → Returns InteractionLease
  unfolding apply_change
  take_lease st (err e) = (err (failed (interaction_lease e)), st)
  take_lease st (ok (lease, deadline)) =
      let (r, st') = apply_change st (interaction_changed (leased lease)) in
      elim r [
        | err e ↦ (err e, st')
        | ok changed ↦ (ok lease, record st' { lease_deadline = some deadline })
      ]

  unfoldable pub acquire_lease :
      ActorState mpsc → Clock → LeaseHolderId → ℕ → ℕ → Returns InteractionLease
  unfolding grant take_lease
  acquire_lease st clock holder now_ms ttl_ms =
      take_lease st (grant st.snapshot.interaction clock holder now_ms ttl_ms)

  unfoldable pub release_lease : ActorState mpsc → LeaseHolderId → Returns (Unit {0})
  unfolding may_release apply_change
  release_lease st holder = elim (may_release st.snapshot.interaction holder) [
    | err e ↦ (err (failed (interaction_lease e)), st)
    | ok _ ↦
        let (r, st') =
          apply_change (record st { lease_deadline = none }) (interaction_changed unclaimed) in
        (r >>= λ _. ok tt, st')
  ]
