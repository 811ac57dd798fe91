-- ===== src/Plane/Actor/Lease.antt =====
-- The interaction lease of actor.rs: whom it keeps away, and until when.
use omp_remote.Prelude.{
  ℕ, ◌+◌, ◌<◌, ◌≡◌, ◌≢◌, refl, arith, Result, ok, err, ap, sym, ◌∙◌, some, Option, checked_add,
}
use omp_remote.Protocol.Id.{LeaseHolderId}
use omp_remote.Protocol.State.{
  AgentUpdate, StateDelta, InteractionLease, InteractionState, interaction_changed, leased,
  unclaimed,
}
use omp_remote.Plane.Mpsc.{Mpsc}
use omp_remote.Plane.Actor.Types.{
  ActorState, Fault, failed, interaction_lease, InteractionLeaseError, held_by_other, not_holder,
  Clock,
}
use omp_remote.Plane.Actor.Ops.{
  apply_change, grant, check_free, lease_deadline, may_release, take_lease, acquire_lease,
  release_lease,
}
use omp_remote.Plane.Actor.Change.{interaction_set}

module _ {M : Type 0} (mpsc : Mpsc (AgentUpdate M)) where
  take_lease-ok :
      (st : ActorState mpsc) (l lease : InteractionLease) (deadline : ℕ)
      → (take_lease mpsc st (ok (l, deadline))).0 ≡ ok lease
      → (lease ≡ l)
        × ((take_lease mpsc st (ok (l, deadline))).1.snapshot.interaction ≡ leased l)
        × ((take_lease mpsc st (ok (l, deadline))).1.lease_deadline ≡ some deadline)
  unfolding take_lease
  take_lease-ok st l lease deadline h =
      go (apply_change mpsc st (interaction_changed (leased l))).0 refl
    where
      go :
          (r : Result Fault (Option StateDelta))
          → (apply_change mpsc st (interaction_changed (leased l))).0 ≡ r
          → (lease ≡ l)
            × ((take_lease mpsc st (ok (l, deadline))).1.snapshot.interaction ≡ leased l)
            × ((take_lease mpsc st (ok (l, deadline))).1.lease_deadline ≡ some deadline)
      go (err e) x = cc (rw (x, take_lease) at h)
      go (ok d) x = (
        cc (rw (x, take_lease) at h),
        rw (x, take_lease) (interaction_set mpsc st (leased l) d x),
        rw (x, take_lease) refl,
      )

grant-ok :
    (i : InteractionState) (clock : Clock) (holder : LeaseHolderId) (now_ms ttl_ms : ℕ)
    (lease : InteractionLease) (deadline : ℕ)
    → grant i clock holder now_ms ttl_ms ≡ ok (lease, deadline)
    → (lease ≡ record { holder = holder; expires_at_ms = now_ms + ttl_ms })
      × (deadline ≡ clock.instant + ttl_ms)
unfolding grant check_free lease_deadline checked_add
grant-ok unclaimed clock holder now_ms ttl_ms lease deadline h = ground arith
grant-ok (leased l) clock holder now_ms ttl_ms lease deadline h = ground arith

grant-held :
    (l : InteractionLease) (clock : Clock) (other : LeaseHolderId) (now_ms ttl_ms : ℕ)
    → other ≢ l.holder
    → now_ms < l.expires_at_ms
    → grant (leased l) clock other now_ms ttl_ms ≡ err (held_by_other l)
unfolding grant check_free
grant-held l clock other now_ms ttl_ms n h = ground arith

module _ {M : Type 0} (mpsc : Mpsc (AgentUpdate M)) (st : ActorState mpsc) (l : InteractionLease)
    (other : LeaseHolderId) (held : st.snapshot.interaction ≡ leased l)
    (stranger : other ≢ l.holder) where
  acquire_held :
      (clock : Clock) (now_ms ttl_ms : ℕ)
      → now_ms < l.expires_at_ms
      → acquire_lease mpsc st clock other now_ms ttl_ms
        ≡ (err (failed (interaction_lease (held_by_other l))), st)
  unfolding acquire_lease
  acquire_held clock now_ms ttl_ms h =
      rw (held, grant-held l clock other now_ms ttl_ms stranger h) (unfold take_lease in refl)

  release_held :
      release_lease mpsc st other ≡ (err (failed (interaction_lease (not_holder l.holder))), st)
  unfolding release_lease may_release
  release_held = ground arith

module _ {M : Type 0} (mpsc : Mpsc (AgentUpdate M)) (st : ActorState mpsc) (clock : Clock)
    (holder : LeaseHolderId) (now_ms ttl_ms : ℕ) (lease : InteractionLease)
    (acquired : (acquire_lease mpsc st clock holder now_ms ttl_ms).0 ≡ ok lease) where
  -- A lease that is granted is the caller's, ends at the sum of the time and the duration, stands
  -- in the snapshot, and has its deadline set on the monotonic clock.
  pub acquire_lease-granted :
      (lease ≡ record { holder = holder; expires_at_ms = now_ms + ttl_ms })
      × ((acquire_lease mpsc st clock holder now_ms ttl_ms).1.snapshot.interaction ≡ leased lease)
      × ((acquire_lease mpsc st clock holder now_ms ttl_ms).1.lease_deadline
          ≡ some (clock.instant + ttl_ms))
  unfolding acquire_lease
  acquire_lease-granted = go (grant st.snapshot.interaction clock holder now_ms ttl_ms) refl
    where
      go :
          (g : Result InteractionLeaseError (InteractionLease × ℕ))
          → grant st.snapshot.interaction clock holder now_ms ttl_ms ≡ g
          → (lease ≡ record { holder = holder; expires_at_ms = now_ms + ttl_ms })
            × ((acquire_lease mpsc st clock holder now_ms ttl_ms).1.snapshot.interaction
                ≡ leased lease)
            × ((acquire_lease mpsc st clock holder now_ms ttl_ms).1.lease_deadline
                ≡ some (clock.instant + ttl_ms))
      go (err e) x = unfold take_lease in cc (rw (x, acquire_lease) at acquired)
      go (ok (l, d)) x =
          let (e, i, t) = take_lease-ok mpsc st l lease d (rw (x, acquire_lease) at acquired) in
          let (f, u) = grant-ok st.snapshot.interaction clock holder now_ms ttl_ms l d x in
          (
            e ∙ f,
            rw (x, acquire_lease) (i ∙ ap leased (sym e)),
            rw (x, acquire_lease) (t ∙ ap some u),
          )

  -- From a state where a lease was just acquired, and until it ends, nobody else acquires or
  -- releases it: the acquisition is refused with the lease, the release with its holder, and
  -- neither changes the state.
  pub lease_excludes :
      (later : Clock) (other : LeaseHolderId) (later_ms other_ttl_ms : ℕ)
      → other ≢ holder
      → later_ms < now_ms + ttl_ms
      → let st' = (acquire_lease mpsc st clock holder now_ms ttl_ms).1 in
        (acquire_lease mpsc st' later other later_ms other_ttl_ms
          ≡ (err (failed (interaction_lease (held_by_other lease))), st'))
        × (release_lease mpsc st' other
            ≡ (err (failed (interaction_lease (not_holder holder))), st'))
  lease_excludes later other later_ms other_ttl_ms n h =
      let (e, i, t) = acquire_lease-granted in
      let st' = (acquire_lease mpsc st clock holder now_ms ttl_ms).1 in
      let who = ap (λ (l : InteractionLease). l.holder) e in
      let until = ap (λ (l : InteractionLease). l.expires_at_ms) e in
      let stranger = λ (p : other ≡ lease.holder). n (p ∙ who) in
      (
        acquire_held mpsc st' lease other i stranger later later_ms other_ttl_ms (omega arith),
        release_held mpsc st' lease other i stranger
            ∙ ap (λ w. (err (failed (interaction_lease (not_holder w))), st')) who,
      )
