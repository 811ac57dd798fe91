-- ===== src/Plane/Handle/Owner.antt =====
-- What the task of a handle of crates/omp-control-plane/src/actor.rs keeps at each command.
use omp_remote.Prelude.{
  ℕ, ◌≡◌, refl, none, Result, ok, err, inl, inr, Bool-cases, Result-cases, ltb, u64_max, arith,
}
use omp_remote.Protocol.State.{
  AgentSnapshot, AgentUpdate, AgentStateChange, would_change, interaction_changed, leased,
  unclaimed, InteractionLease, EventSequence, lifecycle_changed, run_upserted,
}
use omp_remote.Protocol.State
use omp_remote.Protocol.Id.{LeaseHolderId}
use omp_remote.Plane.Mpsc.{Mpsc}
use omp_remote.Plane.Actor.Types.{ActorState, ActorCommand, Clock, Fault, InteractionLeaseError}
use omp_remote.Plane.Actor.Log.{record_update}
use omp_remote.Plane.Actor.Ops.{
  apply_change, publish_event, next_event_sequence, take_lease, acquire_lease, grant, release_lease,
  may_release, subscribe,
}
use omp_remote.Plane.Actor.Change.{apply_change_exact}
use omp_remote.Plane.Actor.Loop.{handle}
use omp_remote.Plane.Handle.{panics, has_panicked}

changed-agent_id :
    (s : AgentSnapshot) (c : AgentStateChange) → (State.apply_change s c).agent_id ≡ s.agent_id
unfolding State.apply_change
changed-agent_id s (lifecycle_changed l) = refl
changed-agent_id s (run_upserted run) = ground arith
changed-agent_id s c = refl

module _ {M : Type 0} (mpsc : Mpsc (AgentUpdate M)) where
  -- The state stays that of its agent, and the task does not panic.
  abbrev IsSteady : {A : Type 0} → ActorState mpsc → Result Fault A × ActorState mpsc → Type 0
  IsSteady st (r, st') = (st'.snapshot.agent_id ≡ st.snapshot.agent_id) × (panics r ≡ none)

  apply_change-IsSteady :
      (st : ActorState mpsc) (c : AgentStateChange) → IsSteady st (apply_change mpsc st c)
  unfolding record_update
  apply_change-IsSteady st c =
      let e = apply_change_exact mpsc st c in
      elim (Bool-cases (would_change st.snapshot c)) [
        | inr w ↦ rw (e, w) (refl, refl)
        | inl w ↦ elim (Bool-cases (ltb st.snapshot.revision u64_max)) [
          | inr a ↦ rw (e, w, a) (refl, refl)
          | inl a ↦ elim (Bool-cases (ltb st.snapshot.event_sequence u64_max)) [
            | inr b ↦ rw (e, w, a, b) (refl, refl)
            | inl b ↦ rw (e, w, a, b) (changed-agent_id st.snapshot c, refl)
          ]
        ]
      ]

  publish_event-IsSteady :
      (st : ActorState mpsc) (event : M) → IsSteady st (publish_event mpsc st event)
  unfolding publish_event record_update
  publish_event-IsSteady st event = elim (Result-cases (next_event_sequence st.snapshot)) [
    | inl (q, e) ↦ rw (e, publish_event) (refl, refl)
    | inr (a, e) ↦ rw (e, publish_event) (refl, refl)
  ]

  take_lease-IsSteady :
      (st : ActorState mpsc) (r : Result InteractionLeaseError (InteractionLease × ℕ))
      → IsSteady st (take_lease mpsc st r)
  unfolding take_lease
  take_lease-IsSteady st (err e) = (refl, refl)
  take_lease-IsSteady st (ok (lease, deadline)) =
      let steady = apply_change-IsSteady st (interaction_changed (leased lease)) in
      elim (Result-cases (apply_change mpsc st (interaction_changed (leased lease))).0) [
        | inl (d, e) ↦ rw (e, take_lease) (steady.0, refl)
        | inr (f, e) ↦ rw (e, take_lease) (steady.0, rw e at steady.1)
      ]

  release_lease-IsSteady :
      (st : ActorState mpsc) (holder : LeaseHolderId) → IsSteady st (release_lease mpsc st holder)
  unfolding release_lease
  release_lease-IsSteady st holder =
      let st' = record st { lease_deadline = none } in
      let steady = apply_change-IsSteady st' (interaction_changed unclaimed) in
      elim (Result-cases (may_release st.snapshot.interaction holder)) [
        | inr (f, e) ↦ rw (e, release_lease) (refl, refl)
        | inl (u, e) ↦
            elim (Result-cases (apply_change mpsc st' (interaction_changed unclaimed)).0) [
              | inl (d, g) ↦ rw (e, release_lease) (steady.0, rw g refl)
              | inr (f, g) ↦ rw (e, release_lease) (steady.0, rw g (rw g at steady.1))
            ]
      ]

  -- At every command the state stays that of its agent, and the task does not panic.
  pub handle-IsSteady :
      (st : ActorState mpsc) (clock : Clock) (c : ActorCommand M)
      → ((handle mpsc st clock c).1.snapshot.agent_id ≡ st.snapshot.agent_id)
        × (has_panicked (handle mpsc st clock c).0 ≡ none)
  unfolding handle
  handle-IsSteady st clock ActorCommand.snapshot = (refl, refl)
  handle-IsSteady st clock (ActorCommand.change change) =
      let steady = apply_change-IsSteady st change in
      elim (Result-cases (apply_change mpsc st change).0) [
        | inl (d, e) ↦ (steady.0, rw e refl)
        | inr (f, e) ↦ (steady.0, rw e (rw e at steady.1))
      ]
  handle-IsSteady st clock (ActorCommand.publish_event event) = publish_event-IsSteady st event
  handle-IsSteady st clock (ActorCommand.subscribe cursor) = unfold subscribe in (refl, refl)
  handle-IsSteady st clock (ActorCommand.acquire_lease holder now_ms ttl_ms) =
      unfold acquire_lease in
      take_lease-IsSteady st (grant st.snapshot.interaction clock holder now_ms ttl_ms)
  handle-IsSteady st clock (ActorCommand.release_lease holder) = release_lease-IsSteady st holder
  handle-IsSteady st clock ActorCommand.shutdown = (refl, refl)
