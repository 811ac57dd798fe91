-- ===== src/Examples/Runs.antt =====
-- Runs of the actor and of the replica.
use mathlib.Core.Logic.{ite}
use omp_remote.Prelude.{
  String_discrete, true, false, ap, String, String, ◌≡◌, ◌≢◌, refl, true, false, none, some, List,
  [], ◌∷◌, ◌++◌, ok, err, arith, inl, inr, Bool-cases, ap, String_discrete, if◌then◌else◌, map,
  checked_add,
}
use omp_remote.Prelude.BTreeMap
use omp_remote.Prelude.BTreeMap.{contains_key}
use omp_remote.Protocol.State.{
  AgentSnapshot, AgentUpdate, event_update, delta_update, apply_updates, apply_update,
  validate_update_cursor, apply_delta, apply_change, RunSnapshot, RunLifecycle, run_upserted,
  run_removed, interaction_changed, leased, upsert_run, StateDelta, SubscriptionStart, would_change,
  InteractionLease,
}
use omp_remote.Protocol.State
use omp_remote.Protocol.State.Advance.{applied}
use omp_remote.Protocol.State.Idempotent.{would_change_exact}
use omp_remote.Protocol.Frame.Types.{ServerMessage, transport}
use omp_remote.Plane.Actor.Types.{
  ActorState, ActorCommand, failed, interaction_lease, held_by_other, not_holder,
}
use omp_remote.Plane.Actor.Ops.{
  apply_change as change_state, acquire_lease, release_lease, subscription_start, grant, check_free,
  lease_deadline, take_lease,
}
use omp_remote.Plane.Actor.Log.{record_update}
use omp_remote.Plane.Actor.Loop.{Wakeup, run_agent_actor, spawned}
use omp_remote.Plane.Actor.History.{Logged}
use omp_remote.Plane.Actor.Reachable.{run-IsHistory}
use omp_remote.Plane.Actor.Catchup.{subscription_start_exact}
use omp_remote.Plane.Actor.Replay.{cursor_of}
use omp_remote.Plane.Actor.Lease.{acquire_lease-granted, lease_excludes}
use omp_remote.Plane.Actor.Change.{apply_change_exact, next_delta}
use omp_remote.Daemon.Emit.{update_frame, start_frames}
use omp_remote.Client.Reducer.{
  ReplicatedState, apply, apply_all, cursor, non_contiguous_event_sequence,
}
use omp_remote.Client.Reducer.Convergence.{Holds, updates-Holds}
use omp_remote.Client.Reducer.Gaps.{IsStuck, gap_is_refused}
use omp_remote.Client.Reconnect.{reconnect-Holds}
use omp_remote.Examples.Data.{
  payloads, channels, genesis, first_update, second_update, at_one, at_two, actor, noon,
}

first_applied : apply_updates {M = ServerMessage payloads} genesis (first_update ∷ []) ≡ ok at_one
unfolding apply_update validate_update_cursor String_discrete
first_applied = refl

both_applied :
    apply_updates {M = ServerMessage payloads} genesis (first_update ∷ second_update ∷ [])
    ≡ ok at_two
unfolding apply_update validate_update_cursor String_discrete apply_delta State.apply_change
both_applied = refl

abbrev history : List (AgentUpdate (ServerMessage payloads))
history = (first_update ∷ []) ++ second_update ∷ []

actor-Logged : Logged channels genesis history actor
actor-Logged = record {
  replayed = both_applied;
  contiguous = (refl, (refl, tt));
  older = first_update ∷ [];
  split = refl;
  bounded = omega arith;
  complete = inr refl;
  positive = omega arith;
}

abbrev replica : ReplicatedState
replica = record { agents = ("agent", at_one) ∷ []; resync_required = [] }

replica-Holds : Holds replica at_one
unfolding BTreeMap.get String_discrete
replica-Holds = record { found = refl; trusted = refl }

reconnect_example :
    Holds
      (apply_all payloads replica
        (start_frames (subscription_start channels actor (cursor replica "agent"))))
      at_two
reconnect_example =
    reconnect-Holds channels genesis actor (first_update ∷ []) (second_update ∷ []) at_one
      actor-Logged first_applied (omega arith) (omega arith) replica replica-Holds

subscription_example :
    subscription_start channels actor (some (cursor_of at_one))
    ≡ SubscriptionStart.replay (second_update ∷ [])
subscription_example =
    subscription_start_exact channels genesis actor (first_update ∷ []) (second_update ∷ []) at_one
      actor-Logged first_applied (omega arith) (omega arith)

history_example :
    (all : List (AgentUpdate (ServerMessage payloads))) × Logged channels genesis all
      (run_agent_actor channels
        (spawned channels genesis (record { replay_capacity = 1; subscriber_capacity = 1 }))
        ((noon, Wakeup.command (ActorCommand.publish_event (transport 7)))
          ∷ (noon, Wakeup.command (ActorCommand.publish_event (transport 8)))
          ∷ [])).0
history_example =
    run-IsHistory channels genesis (record { replay_capacity = 1; subscriber_capacity = 1 })
      ((noon, Wakeup.command (ActorCommand.publish_event (transport 7)))
        ∷ (noon, Wakeup.command (ActorCommand.publish_event (transport 8)))
        ∷ [])
      (omega arith)

second_applied : apply_updates {M = ServerMessage payloads} at_one (second_update ∷ []) ≡ ok at_two
unfolding apply_update apply_delta String_discrete apply_change
second_applied = refl

updates_example : Holds (apply_all payloads replica (map update_frame (second_update ∷ []))) at_two
updates_example =
    updates-Holds replica at_one at_two (second_update ∷ []) replica-Holds (refl, tt) second_applied
      (omega arith)

abbrev late_update : AgentUpdate (ServerMessage payloads)
late_update = event_update "agent" 5 (transport 7)

-- The update that is missing comes too late.
gap_example :
    ((apply payloads replica (update_frame late_update)).0
      ≡ err (non_contiguous_event_sequence 1 5))
    × IsStuck at_one (
        apply_all payloads
          (apply payloads replica (update_frame late_update)).1
          (map update_frame (second_update ∷ [])))
gap_example =
    gap_is_refused replica at_one late_update (second_update ∷ []) replica-Holds refl (omega arith)
      (omega arith)

abbrev alice_lease : InteractionLease
alice_lease = record { holder = "alice"; expires_at_ms = 60 }

lease_differs : apply_change at_two (interaction_changed (leased alice_lease)) ≢ at_two
unfolding apply_change
lease_differs e = cc (ap (λ (s : AgentSnapshot). s.interaction) e)

lease_changes : would_change at_two (interaction_changed (leased alice_lease)) ≡ true
lease_changes = elim (Bool-cases (would_change at_two (interaction_changed (leased alice_lease)))) [
  | inl e ↦ e
  | inr e ↦
      absurd
        (lease_differs ((would_change_exact at_two (interaction_changed (leased alice_lease))).0 e))
]

lease_acquired : (acquire_lease channels actor noon "alice" 50 10).0 ≡ ok alice_lease
unfolding acquire_lease grant check_free lease_deadline checked_add
lease_acquired =
    rw (apply_change_exact channels actor (interaction_changed (leased alice_lease)), take_lease)
      (rw lease_changes refl)

abbrev leased_actor : ActorState channels
leased_actor = (acquire_lease channels actor noon "alice" 50 10).1

bob_stranger : ◌≢◌ {A = String} "bob" "alice"
unfolding String_discrete
bob_stranger e = cc (ap (λ (s : String). ite (String_discrete s "bob") true false) e)

granted_example :
    (alice_lease ≡ record { holder = "alice"; expires_at_ms = 60 })
    × (leased_actor.snapshot.interaction ≡ leased alice_lease)
    × (leased_actor.lease_deadline ≡ some 1010)
granted_example = acquire_lease-granted channels actor noon "alice" 50 10 alice_lease lease_acquired

excluded_example :
    (acquire_lease channels leased_actor noon "bob" 59 10
      ≡ (err (failed (interaction_lease (held_by_other alice_lease))), leased_actor))
    × (release_lease channels leased_actor "bob"
        ≡ (err (failed (interaction_lease (not_holder "alice"))), leased_actor))
excluded_example =
    lease_excludes channels actor noon "alice" 50 10 alice_lease lease_acquired noon "bob" 59 10
      bob_stranger (omega arith)

abbrev removal : StateDelta
removal = next_delta at_two (run_removed "run")

change_example : change_state channels actor (run_removed "run") ≡ (
    if would_change at_two (run_removed "run")
    then (
      ok (some removal),
      record_update channels
          (record actor { snapshot = applied at_two removal 3 })
          (delta_update 3 removal),
    )
    else (ok none, actor))
change_example = apply_change_exact channels actor (run_removed "run")
