-- ===== src/Client/Reducer/Convergence.antt =====
-- A replica of reducer.rs that receives the updates of an agent in order.
use omp_remote.Prelude.{
  suc, ◌≤◌, ◌≡◌, false, List, [], ◌∷◌, arith, Result, ok, ◌>>=◌, ap, ◌∙◌, subst, some, u64_max, map,
  >>=-eq-ok, ok-injective, checked_add, map_err,
}
use omp_remote.Prelude.BTreeMap
use omp_remote.Prelude.BTreeMap.{contains_key, get-insert, get-remove}
use omp_remote.Protocol.Id.{AgentId}
use omp_remote.Protocol.State.{
  AgentSnapshot, AgentUpdate, delta_update, event_update, update_sequence, apply_update,
  apply_updates, validate_update_cursor, EventSequence,
}
use omp_remote.Protocol.State.Advance.{apply_update-Accepts}
use omp_remote.Protocol.Frame.Types.{Payloads, ServerMessage, extension_ui, ServerFrame}
use omp_remote.Plane.Actor.Sequence.{Contiguous, sequence-replayed}
use omp_remote.Daemon.Emit.{update_frame}
use omp_remote.Client.Reducer.{
  ReplicatedState, ReplicationEffect, ReplicationError, next_of, settle, apply_snapshot, apply,
  apply_all,
}

-- The replica holds this snapshot of its agent, and trusts it.
pub record Holds (r : ReplicatedState) (s : AgentSnapshot) : Type 0 where
  pub found : BTreeMap.get s.agent_id r.agents ≡ some s
  pub trusted : contains_key s.agent_id r.resync_required ≡ false

next_of-Holds :
    (r : ReplicatedState) (s : AgentSnapshot) (a : AgentId) (q : EventSequence)
    → Holds r s
    → a ≡ s.agent_id
    → q ≡ suc s.event_sequence
    → q ≤ u64_max
    → next_of r a q ≡ ok s
unfolding next_of checked_add
next_of-Holds r s a q h e n m = rw e (ground (arith, h.found, h.trusted))

moved :
    (s t : AgentSnapshot) (a : AgentId) (q : EventSequence)
    → (validate_update_cursor s a q >>= λ _. ok (record s { event_sequence = q })) ≡ ok t
    → ◌≡◌ {A = Result ReplicationError AgentSnapshot} (ok (record s { event_sequence = q })) (ok t)
unfolding validate_update_cursor
moved s t a q h = ground arith

settled-Holds :
    (P : Payloads) (r : ReplicatedState) (s t : AgentSnapshot) (a : AgentId)
    (effect : ReplicationEffect P) (m : Result ReplicationError AgentSnapshot)
    → Holds r s
    → a ≡ s.agent_id
    → t.agent_id ≡ s.agent_id
    → m ≡ ok t
    → Holds (settle P r a effect m).1 t
unfolding settle
settled-Holds P r s t a effect m h e k x =
    rw (x, settle)
      (record {
        found = ground (arith, get-insert a t.agent_id t r.agents);
        trusted = ground (arith, h.trusted);
      })

module _ {P : Payloads} where
  -- An update that the agent's snapshot accepts, in its turn, is taken over.
  update-Holds :
      (r : ReplicatedState) (s t : AgentSnapshot) (u : AgentUpdate (ServerMessage P))
      → Holds r s
      → apply_update s u ≡ ok t
      → update_sequence u ≡ suc s.event_sequence
      → suc s.event_sequence ≤ u64_max
      → Holds (apply P r (update_frame u)).1 t
  unfolding update_frame apply apply_update
  update-Holds r s t (delta_update q d) h e n m =
      let v = apply_update-Accepts {M = ServerMessage P} s t (delta_update q d) e in
      let f = next_of-Holds r s d.agent_id q h v.agent n (omega arith) in
      settled-Holds P r s t d.agent_id _ _ h v.agent v.agent_kept
        (rw f (ap (map_err ReplicationError.delta) e))
  update-Holds r s t (event_update a q (extension_ui request)) h e n m =
      let v =
        apply_update-Accepts {M = ServerMessage P} s t (event_update a q (extension_ui request))
          e in
      let f = next_of-Holds r s a q h v.agent n (omega arith) in
      settled-Holds P r s t a _ _ h v.agent v.agent_kept (rw f (moved s t a q e))
  update-Holds r s t (event_update a q event) h e n m =
      let v = apply_update-Accepts {M = ServerMessage P} s t (event_update a q event) e in
      let f = next_of-Holds r s a q h v.agent n (omega arith) in
      settled-Holds P r s t a _ _ h v.agent v.agent_kept (rw f (moved s t a q e))

  -- A replica that holds a snapshot, with no resynchronisation of the agent pending, and is sent
  -- the frames of all the updates from there to another snapshot, in order and without a gap,
  -- holds the other one, with none pending, if its event sequence is a u64.
  pub updates-Holds :
      (r : ReplicatedState) (s t : AgentSnapshot) (us : List (AgentUpdate (ServerMessage P)))
      → Holds r s
      → Contiguous s.event_sequence us
      → apply_updates s us ≡ ok t
      → t.event_sequence ≤ u64_max
      → Holds (apply_all P r (map update_frame us)) t
  unfolding apply_all
  updates-Holds r s t [] h c e m = subst (Holds r) (ok-injective e) h
  updates-Holds r s t (u ∷ us) h c e m =
      let (a, x, y) = >>=-eq-ok (apply_update s u) (λ a. apply_updates a us) e in
      let q = (apply_update-Accepts s a u x).sequence ∙ c.0 in
      let k : Contiguous a.event_sequence us = rw (← q) at c.1 in
      let n = sequence-replayed a t us k y in
      updates-Holds (apply P r (update_frame u)).1 a t us
        (update-Holds r s a u h x c.0 (omega (arith, n, q))) k y m

-- After the frame of an agent's snapshot the replica holds that snapshot with no resynchronisation
-- pending, whatever it held before.
pub snapshot-Holds :
    (P : Payloads) (r : ReplicatedState) (s : AgentSnapshot)
    → Holds (apply P r (ServerFrame.snapshot (record { agents = s ∷ [] }))).1 s
unfolding apply apply_snapshot
snapshot-Holds P r s = record {
  found = ground (arith, get-insert s.agent_id s.agent_id s r.agents);
  trusted = ground (arith, get-remove s.agent_id s.agent_id r.resync_required);
}
