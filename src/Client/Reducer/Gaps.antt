-- ===== src/Client/Reducer/Gaps.antt =====
-- What a replica of reducer.rs does with an update that is not the next one.
use omp_remote.Prelude.{
  suc, ◌<◌, ◌≡◌, ◌≢◌, refl, true, arith, Result, ok, err, some, u64_max, checked_add, ap, map, List,
  [], ◌∷◌, String_discrete,
}
use omp_remote.Prelude.BTreeMap
use omp_remote.Prelude.BTreeMap.{contains_key, get-insert}
use omp_remote.Protocol.Id.{AgentId}
use omp_remote.Protocol.State.{
  AgentSnapshot, AgentUpdate, delta_update, event_update, update_sequence, EventSequence,
}
use omp_remote.Protocol.State.Advance.{update_agent}
use omp_remote.Protocol.Frame.Types.{Payloads, ServerMessage, extension_ui}
use omp_remote.Daemon.Emit.{update_frame}
use omp_remote.Client.Reducer.{
  ReplicatedState, ReplicationError, ReplicationEffect, resync_pending, apply_all,
  non_contiguous_event_sequence, next_of, settle, apply, mark_resync, is_resync_required,
}
use omp_remote.Client.Reducer.Convergence.{Holds}

module _ {P : Payloads} where
  refused :
      (r : ReplicatedState) (u : AgentUpdate (ServerMessage P)) (e : ReplicationError)
      → next_of r (update_agent u) (update_sequence u) ≡ err e
      → apply P r (update_frame u) ≡ (err e, mark_resync r (update_agent u))
  unfolding apply update_frame
  refused r (delta_update q d) e h = rw h (unfold settle in refl)
  refused r (event_update a q (extension_ui request)) e h = rw h (unfold settle in refl)
  refused r (event_update a q event) e h = rw h (unfold settle in refl)

next_of-gap :
    (r : ReplicatedState) (s : AgentSnapshot) (a : AgentId) (q : EventSequence)
    → Holds r s
    → a ≡ s.agent_id
    → s.event_sequence < u64_max
    → q ≢ suc s.event_sequence
    → next_of r a q ≡ err (non_contiguous_event_sequence s.event_sequence q)
unfolding next_of checked_add
next_of-gap r s a q h e m n = rw e (ground (arith, h.found, h.trusted))

next_of-pending :
    (r : ReplicatedState) (s : AgentSnapshot) (a : AgentId) (q : EventSequence)
    → BTreeMap.get a r.agents ≡ some s
    → is_resync_required r a ≡ true
    → next_of r a q ≡ err (resync_pending a)
unfolding next_of is_resync_required
next_of-pending r s a q f p = ground arith

-- The replica holds the snapshot of its agent, and waits for another one.
abbrev pub IsStuck : AgentSnapshot → ReplicatedState → Type 0
IsStuck s r =
    (BTreeMap.get s.agent_id r.agents ≡ some s) × (contains_key s.agent_id r.resync_required ≡ true)

marked-IsStuck :
    (r : ReplicatedState) (s : AgentSnapshot) (a : AgentId)
    → a ≡ s.agent_id
    → BTreeMap.get s.agent_id r.agents ≡ some s
    → IsStuck s (mark_resync r a)
marked-IsStuck r s a e f = (f, ground (arith, get-insert a s.agent_id tt r.resync_required))

module _ {P : Payloads} where
  settled-IsStuck :
      (r : ReplicatedState) (s : AgentSnapshot) (a : AgentId) (effect : ReplicationEffect P)
      (m : Result ReplicationError AgentSnapshot)
      → a ≢ s.agent_id
      → IsStuck s r
      → IsStuck s (settle P r a effect m).1
  unfolding settle
  settled-IsStuck r s a effect (err e) n (found, pending) =
      (found, ground (arith, get-insert a s.agent_id tt r.resync_required))
  settled-IsStuck r s a effect (ok t) n (found, pending) =
      (ground (arith, get-insert a s.agent_id t r.agents), pending)

  -- The update of another agent.
  other-IsStuck :
      (r : ReplicatedState) (s : AgentSnapshot) (u : AgentUpdate (ServerMessage P))
      → update_agent u ≢ s.agent_id
      → IsStuck s r
      → IsStuck s (apply P r (update_frame u)).1
  unfolding apply update_frame
  other-IsStuck r s (delta_update q d) n h = settled-IsStuck r s d.agent_id _ _ n h
  other-IsStuck r s (event_update a q (extension_ui request)) n h = settled-IsStuck r s a _ _ n h
  other-IsStuck r s (event_update a q event) n h = settled-IsStuck r s a _ _ n h

  update-IsStuck :
      (r : ReplicatedState) (s : AgentSnapshot) (u : AgentUpdate (ServerMessage P))
      → IsStuck s r
      → IsStuck s (apply P r (update_frame u)).1
  unfolding is_resync_required
  update-IsStuck r s u (found, pending) = elim (String_discrete (update_agent u) s.agent_id) [
    | yes e ↦
        let stopped =
          next_of-pending r s (update_agent u) (update_sequence u) (rw e found) (rw e pending) in
        rw (refused r u _ stopped) (marked-IsStuck r s (update_agent u) e found)
    | no n ↦ other-IsStuck r s u n (found, pending)
  ]

  updates-IsStuck :
      (r : ReplicatedState) (s : AgentSnapshot) (us : List (AgentUpdate (ServerMessage P)))
      → IsStuck s r
      → IsStuck s (apply_all P r (map update_frame us))
  unfolding apply_all
  updates-IsStuck r s [] h = h
  updates-IsStuck r s (u ∷ us) h =
      updates-IsStuck (apply P r (update_frame u)).1 s us (update-IsStuck r s u h)

  -- An update of an agent that is not the next one of the snapshot held is refused, if the replica
  -- awaited no resynchronisation of the agent and the snapshot's event sequence is below the last
  -- u64. From then on, whatever updates of this and other agents come, the replica holds the same
  -- snapshot of the agent and awaits its resynchronisation.
  pub gap_is_refused :
      (r : ReplicatedState) (s : AgentSnapshot) (u : AgentUpdate (ServerMessage P))
      (us : List (AgentUpdate (ServerMessage P)))
      → Holds r s
      → update_agent u ≡ s.agent_id
      → s.event_sequence < u64_max
      → update_sequence u ≢ suc s.event_sequence
      → ((apply P r (update_frame u)).0
          ≡ err (non_contiguous_event_sequence s.event_sequence (update_sequence u)))
        × IsStuck s (apply_all P (apply P r (update_frame u)).1 (map update_frame us))
  gap_is_refused r s u us h e m n =
      let gap = refused r u _ (next_of-gap r s (update_agent u) (update_sequence u) h e m n) in
      (
        ap (λ x. x.0) gap,
        rw gap (
            updates-IsStuck (mark_resync r (update_agent u)) s us
              (marked-IsStuck r s (update_agent u) e h.found)),
      )
