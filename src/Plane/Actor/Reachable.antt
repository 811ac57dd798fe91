-- ===== src/Plane/Actor/Reachable.antt =====
-- The states that the actor of actor.rs reaches, and their logs.
use mathlib.Core.List.{append_assoc}
use omp_remote.Prelude.{
  ℕ, ◌<◌, ◌≡◌, refl, List, [], ◌∷◌, ◌++◌, arith, Result, ok, err, none, some, inl, inr, Bool-cases,
  subst, Option, leb,
}
use omp_remote.Protocol.Id.{LeaseHolderId}
use omp_remote.Protocol.State.{
  AgentSnapshot, AgentUpdate, StateDelta, InteractionLease, interaction_changed, leased, unclaimed,
}
use omp_remote.Plane.Mpsc.{Mpsc}
use omp_remote.Plane.Actor.Types.{
  AgentActorConfig, ActorState, Fault, InteractionLeaseError, Clock, ActorCommand,
}
use omp_remote.Plane.Actor.Ops.{
  grant, may_release, apply_change, take_lease, acquire_lease, release_lease, subscribe,
}
use omp_remote.Plane.Actor.Loop.{Wakeup, spawned, expire, handle, run_agent_actor}
use omp_remote.Plane.Actor.History.{
  IsHistory, Logged, Grown, same-Grown, apply_change-Grown, publish_event-Grown,
}

module _ {M : Type 0} (mpsc : Mpsc (AgentUpdate M)) (g : AgentSnapshot) where
  module _ (all : List (AgentUpdate M)) where
    take_lease-Grown :
        (st : ActorState mpsc) (r : Result InteractionLeaseError (InteractionLease × ℕ))
        → Logged mpsc g all st
        → Grown mpsc g all (take_lease mpsc st r).1
    unfolding take_lease
    take_lease-Grown st (err e) h = same-Grown mpsc g all st h
    take_lease-Grown st (ok (lease, deadline)) h =
        go (apply_change mpsc st (interaction_changed (leased lease))).0 refl
      where
        grown : Grown mpsc g all (apply_change mpsc st (interaction_changed (leased lease))).1
        grown = apply_change-Grown mpsc g all st (interaction_changed (leased lease)) h

        go :
            (r : Result Fault (Option StateDelta))
            → (apply_change mpsc st (interaction_changed (leased lease))).0 ≡ r
            → Grown mpsc g all (take_lease mpsc st (ok (lease, deadline))).1
        go (err e) x = rw (x, take_lease) grown
        go (ok d) x = rw (x, take_lease) grown

    release_lease-Grown :
        (st : ActorState mpsc) (holder : LeaseHolderId)
        → Logged mpsc g all st
        → Grown mpsc g all (release_lease mpsc st holder).1
    unfolding release_lease
    release_lease-Grown st holder h = go (may_release st.snapshot.interaction holder) refl
      where
        go :
            (r : Result InteractionLeaseError (Unit {0}))
            → may_release st.snapshot.interaction holder ≡ r
            → Grown mpsc g all (release_lease mpsc st holder).1
        go (err e) x = rw (x, release_lease) (same-Grown mpsc g all st h)
        go (ok u) x =
            rw (x, release_lease)
              (apply_change-Grown mpsc g all (record st { lease_deadline = none })
                (interaction_changed unclaimed) h)

    expire-Grown :
        (st : ActorState mpsc) (clock : Clock)
        → Logged mpsc g all st
        → Grown mpsc g all (expire mpsc st clock)
    unfolding expire
    expire-Grown st clock h = go st.lease_deadline refl
      where
        go : (o : Option ℕ) → st.lease_deadline ≡ o → Grown mpsc g all (expire mpsc st clock)
        go none x = rw (x, expire) (same-Grown mpsc g all st h)
        go (some at) x = elim (Bool-cases (leb at clock.instant)) [
          | inl due ↦
              rw (x, due, expire)
                (apply_change-Grown mpsc g all (record st { lease_deadline = none })
                  (interaction_changed unclaimed) h)
          | inr early ↦ rw (x, early, expire) (same-Grown mpsc g all st h)
        ]

    handle-Grown :
        (st : ActorState mpsc) (clock : Clock) (c : ActorCommand M)
        → Logged mpsc g all st
        → Grown mpsc g all (handle mpsc st clock c).1
    unfolding handle
    handle-Grown st clock ActorCommand.snapshot h = same-Grown mpsc g all st h
    handle-Grown st clock (ActorCommand.change change) h = apply_change-Grown mpsc g all st change h
    handle-Grown st clock (ActorCommand.publish_event event) h =
        publish_event-Grown mpsc g all st event h
    handle-Grown st clock (ActorCommand.subscribe cursor) h =
        unfold subscribe in same-Grown mpsc g all st h
    handle-Grown st clock (ActorCommand.acquire_lease holder now_ms ttl_ms) h =
        unfold acquire_lease in
        take_lease-Grown st (grant st.snapshot.interaction clock holder now_ms ttl_ms) h
    handle-Grown st clock (ActorCommand.release_lease holder) h = release_lease-Grown st holder h
    handle-Grown st clock ActorCommand.shutdown h = same-Grown mpsc g all st h

  Grown-after :
      (all : List (AgentUpdate M)) (st : ActorState mpsc) (new : List (AgentUpdate M))
      → Grown mpsc g (all ++ new) st
      → Grown mpsc g all st
  Grown-after all st new (more, h) = (
    new ++ more,
    subst (λ l. IsHistory g l st.snapshot st.replay st.replay_capacity) (append_assoc all new more)
        h,
  )

  -- The loop, from any state whose log is `all`.
  run-Grown :
      (all : List (AgentUpdate M)) (st : ActorState mpsc) (ws : List (Clock × Wakeup M))
      → Logged mpsc g all st
      → Grown mpsc g all (run_agent_actor mpsc st ws).0
  unfolding run_agent_actor
  run-Grown all st [] h = same-Grown mpsc g all st h
  run-Grown all st ((clock, Wakeup.deadline) ∷ rest) h =
      let (new, k) = expire-Grown all st clock h in
      Grown-after all (run_agent_actor mpsc (expire mpsc st clock) rest).0 new
        (run-Grown (all ++ new) (expire mpsc st clock) rest k)
  run-Grown all st ((clock, Wakeup.disconnected) ∷ rest) h = same-Grown mpsc g all st h
  run-Grown all st ((clock, Wakeup.command ActorCommand.shutdown) ∷ rest) h =
      same-Grown mpsc g all st h
  run-Grown all st ((clock, Wakeup.command c) ∷ rest) h =
      let (new, k) = handle-Grown all st clock c h in
      Grown-after all (run_agent_actor mpsc (handle mpsc st clock c).1 rest).0 new
        (run-Grown (all ++ new) (handle mpsc st clock c).1 rest k)

  -- A fresh actor has an empty log.
  spawned-Logged :
      (config : AgentActorConfig)
      → 0 < config.replay_capacity
      → Logged mpsc g [] (spawned mpsc g config)
  spawned-Logged config p = record {
    replayed = refl;
    contiguous = tt;
    older = [];
    split = refl;
    bounded = omega arith;
    complete = inl refl;
    positive = p;
  }

  -- After any commands and deadlines, from a fresh actor whose replay capacity is positive, there
  -- is a log of contiguous updates that leads from the snapshot at the start to the present one;
  -- the replay buffer is the end of that log and complete up to its capacity.
  pub run-IsHistory :
      (config : AgentActorConfig) (ws : List (Clock × Wakeup M))
      → 0 < config.replay_capacity
      → (all : List (AgentUpdate M)) × Logged mpsc g all
          (run_agent_actor mpsc (spawned mpsc g config) ws).0
  run-IsHistory config ws p = run-Grown [] (spawned mpsc g config) ws (spawned-Logged config p)
