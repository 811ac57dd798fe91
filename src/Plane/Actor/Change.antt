-- ===== src/Plane/Actor/Change.antt =====
-- `apply_change` of actor.rs on every branch.
use omp_remote.Prelude.{
  ℕ, ◌+◌, ◌≤◌, ◌<◌, ◌≡◌, refl, arith, ok, err, ap, sym, ◌∙◌, some, none, Option, u64_max,
  Bool-cases, inl, inr, checked_add, ltb, if◌then◌else◌, ltb→lt, saturating_add,
}
use omp_remote.Protocol.State.{
  AgentSnapshot, AgentUpdate, delta_update, AgentStateChange, StateDelta, InteractionLease,
  InteractionState, interaction_changed, leased, unclaimed, would_change, EventSequence,
}
use omp_remote.Protocol.State
use omp_remote.Protocol.State.Advance.{Fits-ok, applied}
use omp_remote.Protocol.State.Idempotent.{would_change_exact}
use omp_remote.Plane.Mpsc.{Mpsc}
use omp_remote.Plane.Actor.Types.{ActorState, failed, revision_exhausted, event_sequence_exhausted}
use omp_remote.Plane.Actor.Log.{record_update}
use omp_remote.Plane.Actor.Ops.{delta_for, next_event_sequence, install, apply_change}

-- The next delta of an agent.
abbrev pub next_delta : AgentSnapshot → AgentStateChange → StateDelta
next_delta s c = record {
  agent_id = s.agent_id;
  base_revision = s.revision;
  revision = s.revision + 1;
  change = c;
}

delta_for-ok :
    (s : AgentSnapshot) (c : AgentStateChange)
    → s.revision < u64_max
    → s.event_sequence < u64_max
    → delta_for s c ≡ ok (next_delta s c, s.event_sequence + 1)
unfolding delta_for next_event_sequence checked_add
delta_for-ok s c r q = ground arith

delta_for-revision :
    (s : AgentSnapshot) (c : AgentStateChange)
    → u64_max ≤ s.revision
    → delta_for s c ≡ err revision_exhausted
unfolding delta_for next_event_sequence checked_add
delta_for-revision s c r = ground arith

delta_for-sequence :
    (s : AgentSnapshot) (c : AgentStateChange)
    → s.revision < u64_max
    → u64_max ≤ s.event_sequence
    → delta_for s c ≡ err event_sequence_exhausted
unfolding delta_for next_event_sequence checked_add
delta_for-sequence s c r q = ground arith

next_revision : (n : ℕ) → n < u64_max → n + 1 ≡ saturating_add n 1
next_revision n h = omega arith

module _ {M : Type 0} (mpsc : Mpsc (AgentUpdate M)) where
  -- A change that changes nothing is dropped; any other is recorded as the next delta, or refused
  -- with the state as it was if the revision or the event sequence is at the last u64. It never
  -- panics.
  pub apply_change_exact :
      (st : ActorState mpsc) (c : AgentStateChange)
      → let d = next_delta st.snapshot c in
        let q = st.snapshot.event_sequence + 1 in
        apply_change mpsc st c ≡ (
          if would_change st.snapshot c
          then (if ltb st.snapshot.revision u64_max
              then (if ltb st.snapshot.event_sequence u64_max
                  then (
                    ok (some d),
                    record_update mpsc
                        (record st { snapshot = applied st.snapshot d q })
                        (delta_update q d),
                  )
                  else (err (failed event_sequence_exhausted), st))
              else (err (failed revision_exhausted), st))
          else (ok none, st))
  unfolding apply_change
  apply_change_exact st c = elim (Bool-cases (would_change st.snapshot c)) [
    | inr w ↦ rw (w, apply_change) refl
    | inl w ↦ elim (Bool-cases (ltb st.snapshot.revision u64_max)) [
      | inr r ↦
          rw (w, r, delta_for-revision st.snapshot c (ground arith), apply_change)
            (unfold install in refl)
      | inl r ↦ elim (Bool-cases (ltb st.snapshot.event_sequence u64_max)) [
        | inr q ↦
            rw
              (
                w,
                r,
                q,
                delta_for-sequence st.snapshot c (ground arith) (ground arith),
                apply_change,
              )
              (unfold install in refl)
        | inl q ↦
            rw (w, r, q, delta_for-ok st.snapshot c (ground arith) (ground arith), apply_change)
              (rw
                (
                  Fits-ok st.snapshot (next_delta st.snapshot c) (st.snapshot.event_sequence + 1)
                      (record {
                        agent = refl;
                        later = omega arith;
                        base = refl;
                        next = next_revision st.snapshot.revision (ltb→lt _ _ r);
                      }),
                  install,
                )
                refl)
      ]
    ]
  ]

  -- After a change of the interaction that did not fail, the interaction is the new one.
  pub interaction_set :
      (st : ActorState mpsc) (i : InteractionState) (r : Option StateDelta)
      → (apply_change mpsc st (interaction_changed i)).0 ≡ ok r
      → (apply_change mpsc st (interaction_changed i)).1.snapshot.interaction ≡ i
  interaction_set st i r h =
      let c = interaction_changed i in
      let e = apply_change_exact st c in
      elim (Bool-cases (would_change st.snapshot c)) [
        | inr w ↦
            rw (e, w)
              (ap (λ (s : AgentSnapshot). s.interaction)
                  (sym ((would_change_exact st.snapshot c).0 w))
                ∙ unfold State.apply_change in refl)
        | inl w ↦ elim (Bool-cases (ltb st.snapshot.revision u64_max)) [
          | inr a ↦ cc (rw (e, w, a) at h)
          | inl a ↦ elim (Bool-cases (ltb st.snapshot.event_sequence u64_max)) [
            | inr b ↦ cc (rw (e, w, a, b) at h)
            | inl b ↦ rw (e, w, a, b) (unfold record_update State.apply_change in refl)
          ]
        ]
      ]
