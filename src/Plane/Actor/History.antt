-- ===== src/Plane/Actor/History.antt =====
-- The history of an agent in actor.rs: the log of its updates, beside the snapshot and the replay
-- buffer, and what each operation does to it.
use mathlib.Core.List.{append_assoc, append-nil}
use omp_remote.Prelude.{
  ℕ, suc, ◌≤◌, ◌<◌, ◌≡◌, refl, List, [], ◌∷◌, ◌++◌, arith, length, Result, ok, err, ◌>>=◌, ap, sym,
  ◌∙◌, checked_add, length-append, ◌⊎◌, inl, inr, Bool-cases, ◌==◌, subst,
}
use omp_remote.Protocol.State.{
  AgentSnapshot, AgentUpdate, delta_update, event_update, update_sequence, apply_update,
  apply_updates, AgentStateChange, StateDelta, EventSequence, would_change,
}
use omp_remote.Protocol.State.Advance.{
  apply_updates-append, Fits-ok, Fits, applied, apply_update-event,
}
use omp_remote.Plane.Mpsc.{Mpsc}
use omp_remote.Plane.Actor.Types.{ActorState, AgentError}
use omp_remote.Plane.Actor.Log.{push_replay, record_update}
use omp_remote.Plane.Actor.Ops.{
  next_event_sequence, delta_for, install, apply_change, publish_event,
}
use omp_remote.Plane.Actor.Sequence.{Contiguous, Contiguous-snoc, sequence-replayed}

-- From the snapshot `g` the updates `all` lead to `s`, and `log` is their end: all of them, or as
-- many as the buffer holds.
pub record IsHistory {M : Type 0} (g : AgentSnapshot) (all : List (AgentUpdate M))
    (s : AgentSnapshot) (log : List (AgentUpdate M)) (capacity : ℕ) : Type 0 where
  pub replayed : apply_updates g all ≡ ok s
  pub contiguous : Contiguous g.event_sequence all
  pub older : List (AgentUpdate M)
  pub split : all ≡ older ++ log
  pub bounded : length log ≤ capacity
  pub complete : (older ≡ []) ⊎ (length log ≡ capacity)
  pub positive : 0 < capacity

module _ {M : Type 0} where
  -- The buffer after one more update.
  record Pushed (older log : List (AgentUpdate M)) (u : AgentUpdate M) (capacity : ℕ)
      (log' : List (AgentUpdate M)) : Type 0 where
    older' : List (AgentUpdate M)
    split : (older ++ log) ++ u ∷ [] ≡ older' ++ log'
    bounded : length log' ≤ capacity
    complete : (older' ≡ []) ⊎ (length log' ≡ capacity)

  push-Pushed :
      (older log : List (AgentUpdate M)) (u : AgentUpdate M) (capacity : ℕ)
      → 0 < capacity
      → length log ≤ capacity
      → (older ≡ []) ⊎ (length log ≡ capacity)
      → Pushed older log u capacity (push_replay capacity log u)
  push-Pushed older [] u capacity p b f = record {
    older' = older;
    split = ground (arith, append-nil older);
    bounded = ground arith;
    complete = ground arith;
  }
  push-Pushed older (x ∷ log) u capacity p b f = elim (Bool-cases (suc (length log) == capacity)) [
    | inl full ↦ rw full (record {
      older' = older ++ x ∷ [];
      split = simp append_assoc;
      bounded = ground (arith, length-append log (u ∷ []));
      complete = inr (ground (arith, length-append log (u ∷ [])));
    })
    | inr room ↦ rw room (record {
      older' = older;
      split = simp append_assoc;
      bounded = ground (arith, length-append log (u ∷ []));
      complete = ground arith;
    })
  ]

  extended :
      (g s s' : AgentSnapshot) (all log : List (AgentUpdate M)) (capacity : ℕ) (u : AgentUpdate M)
      → IsHistory g all s log capacity
      → apply_update s u ≡ ok s'
      → update_sequence u ≡ suc s.event_sequence
      → IsHistory g (all ++ u ∷ []) s' (push_replay capacity log u) capacity
  extended g s s' all log capacity u h e q =
      let p = push-Pushed h.older log u capacity h.positive h.bounded h.complete in
      let n = sequence-replayed g s all h.contiguous h.replayed in
      record {
        replayed =
            apply_updates-append g all (u ∷ [])
            ∙ ap (λ r. r >>= λ t. apply_updates t (u ∷ [])) h.replayed
            ∙ ap (λ r. r >>= λ t. ok t) e;
        contiguous = Contiguous-snoc g.event_sequence all u h.contiguous (omega (arith, n, q));
        older = p.older';
        split = ap (λ l. l ++ u ∷ []) h.split ∙ p.split;
        bounded = p.bounded;
        complete = p.complete;
        positive = h.positive;
      }

-- The delta that is made of a change fits the snapshot.
pub delta_for-Fits :
    (s : AgentSnapshot) (c : AgentStateChange) (d : StateDelta) (q : EventSequence)
    → delta_for s c ≡ ok (d, q)
    → Fits s d q × (q ≡ suc s.event_sequence)
unfolding delta_for next_event_sequence checked_add
delta_for-Fits s c d q h = ground arith

next_lem :
    (s : AgentSnapshot) (q : EventSequence)
    → next_event_sequence s ≡ ok q
    → q ≡ suc s.event_sequence
unfolding next_event_sequence checked_add
next_lem s q h = ground arith

module _ {M : Type 0} (mpsc : Mpsc (AgentUpdate M)) where
  abbrev pub Logged : AgentSnapshot → List (AgentUpdate M) → ActorState mpsc → Type 0
  Logged g all st = IsHistory g all st.snapshot st.replay st.replay_capacity

  -- The log grows at its end.
  abbrev pub Grown : AgentSnapshot → List (AgentUpdate M) → ActorState mpsc → Type 0
  Grown g all st = (new : List (AgentUpdate M)) × Logged g (all ++ new) st

  module _ (g : AgentSnapshot) (all : List (AgentUpdate M)) where
    pub same-Grown : (st : ActorState mpsc) → Logged g all st → Grown g all st
    same-Grown st h = (
      [],
      subst (λ l. IsHistory g l st.snapshot st.replay st.replay_capacity) (sym (append-nil all)) h,
    )

    recorded-Grown :
        (st : ActorState mpsc) (s' : AgentSnapshot) (u : AgentUpdate M)
        → Logged g all st
        → apply_update st.snapshot u ≡ ok s'
        → update_sequence u ≡ suc st.snapshot.event_sequence
        → Grown g all (record_update mpsc (record st { snapshot = s' }) u)
    unfolding record_update
    recorded-Grown st s' u h e q =
        (u ∷ [], extended g st.snapshot s' all st.replay st.replay_capacity u h e q)

    install-Grown :
        (st : ActorState mpsc) (c : AgentStateChange)
        (r : Result AgentError (StateDelta × EventSequence))
        → delta_for st.snapshot c ≡ r
        → Logged g all st
        → Grown g all (install mpsc st r).1
    unfolding install
    install-Grown st c (err e) x h = same-Grown st h
    install-Grown st c (ok (d, q)) x h =
        let (f, n) = delta_for-Fits st.snapshot c d q x in
        let e = Fits-ok st.snapshot d q f in
        rw (e, install)
          (recorded-Grown st (applied st.snapshot d q) (delta_update q d) h
            (unfold apply_update in e) n)

    pub apply_change-Grown :
        (st : ActorState mpsc) (c : AgentStateChange)
        → Logged g all st
        → Grown g all (apply_change mpsc st c).1
    unfolding apply_change
    apply_change-Grown st c h = elim (Bool-cases (would_change st.snapshot c)) [
      | inl e ↦ rw (e, apply_change) (install-Grown st c (delta_for st.snapshot c) refl h)
      | inr e ↦ rw (e, apply_change) (same-Grown st h)
    ]

    pub publish_event-Grown :
        (st : ActorState mpsc) (event : M)
        → Logged g all st
        → Grown g all (publish_event mpsc st event).1
    unfolding publish_event
    publish_event-Grown st event h = go (next_event_sequence st.snapshot) refl
      where
        go :
            (r : Result AgentError EventSequence)
            → next_event_sequence st.snapshot ≡ r
            → Grown g all (publish_event mpsc st event).1
        go (err e) x = rw (x, publish_event) (same-Grown st h)
        go (ok q) x =
            let n : q ≡ suc st.snapshot.event_sequence = next_lem st.snapshot q x in
            rw (x, publish_event)
              (recorded-Grown st (record st.snapshot { event_sequence = q })
                (event_update st.snapshot.agent_id q event) h
                (apply_update-event st.snapshot q event (omega arith)) n)
