-- ===== src/Protocol/State/Advance.antt =====
-- When `apply_delta` and `apply_update` of state.rs succeed, and what they change.
use omp_remote.Prelude.{
  ◌≤◌, ◌<◌, ◌≡◌, refl, List, [], ◌∷◌, ◌++◌, arith, ok, ◌>>=◌, u64_max, saturating_add, ◌↔◌,
  bind_assoc, bind_congr, ◌∙◌, sym, >>=-eq-ok,
}
use omp_remote.Protocol.Id.{AgentId}
use omp_remote.Protocol.State.{
  AgentSnapshot, AgentStateChange, run_upserted, StateDelta, StateRevision, EventSequence,
  AgentUpdate, delta_update, event_update, upsert_run, apply_change, apply_delta, apply_update,
  apply_updates, update_sequence,
}

-- `apply_change` leaves the identity and the cursor alone.
pub record KeepsCursor (s t : AgentSnapshot) : Type 0 where
  pub agent : t.agent_id ≡ s.agent_id
  pub revision : t.revision ≡ s.revision
  pub sequence : t.event_sequence ≡ s.event_sequence

pub apply_change-KeepsCursor :
    (s : AgentSnapshot) (c : AgentStateChange) → KeepsCursor s (apply_change s c)
unfolding apply_change
apply_change-KeepsCursor s (run_upserted run) =
    unfold upsert_run in
    record { agent = ground arith; revision = ground arith; sequence = ground arith }
apply_change-KeepsCursor s _ = record { agent = refl; revision = refl; sequence = refl }

-- A delta fits a snapshot if it is for its agent, later, based on its revision and the next one.
pub record Fits (s : AgentSnapshot) (d : StateDelta) (q : EventSequence) : Type 0 where
  pub agent : d.agent_id ≡ s.agent_id
  pub later : s.event_sequence < q
  pub base : d.base_revision ≡ s.revision
  pub next : d.revision ≡ saturating_add s.revision 1

abbrev pub applied : AgentSnapshot → StateDelta → EventSequence → AgentSnapshot
applied s d q = record (apply_change s d.change) { revision = d.revision; event_sequence = q }

pub Fits-ok :
    (s : AgentSnapshot) (d : StateDelta) (q : EventSequence)
    → Fits s d q
    → apply_delta s d q ≡ ok (applied s d q)
unfolding apply_delta
Fits-ok s d q f = ground arith

ok-Fits :
    (s t : AgentSnapshot) (d : StateDelta) (q : EventSequence)
    → apply_delta s d q ≡ ok t
    → Fits s d q × (t ≡ applied s d q)
unfolding apply_delta
ok-Fits s t d q h = ground arith

-- A delta is accepted exactly if it is for the snapshot's agent, later than it, based on its
-- revision and the next one (or, at the last u64, of the same revision), and the result is then
-- the changed snapshot at the delta's revision and the update's sequence.
pub apply_delta_exact :
    (s t : AgentSnapshot) (d : StateDelta) (q : EventSequence)
    → (apply_delta s d q ≡ ok t) ↔ (Fits s d q × (t ≡ applied s d q))
apply_delta_exact s t d q = (ok-Fits s t d q, λ (f, e). rw e (Fits-ok s d q f))

module _ {M : Type 0} where
  abbrev pub update_agent : AgentUpdate M → AgentId
  update_agent (delta_update q d) = d.agent_id
  update_agent (event_update a q event) = a

  -- What an update tells of the revision: a delta goes from its base to its own.
  abbrev pub Revises : AgentUpdate M → StateRevision → StateRevision → Type 0
  Revises (delta_update q d) r r' =
      (d.base_revision ≡ r) × (d.revision ≡ r') × (r' ≡ saturating_add r 1)
  Revises (event_update a q event) r r' = r' ≡ r

  pub Revises-mono :
      (u : AgentUpdate M) (r r' : StateRevision)
      → Revises u r r'
      → r ≤ u64_max
      → (r ≤ r') × (r' ≤ u64_max)
  Revises-mono (delta_update q d) r r' v b = omega (arith, v.2)
  Revises-mono (event_update a q event) r r' v b = omega (arith, v)

  -- An accepted update names the snapshot's agent, moves it to a later sequence, and takes the
  -- revision from the update's base to its revision.
  pub record Accepts (s : AgentSnapshot) (u : AgentUpdate M) (t : AgentSnapshot) : Type 0 where
    pub agent : update_agent u ≡ s.agent_id
    pub agent_kept : t.agent_id ≡ s.agent_id
    pub later : s.event_sequence < update_sequence u
    pub sequence : t.event_sequence ≡ update_sequence u
    pub revises : Revises u s.revision t.revision

  pub apply_update-Accepts :
      (s t : AgentSnapshot) (u : AgentUpdate M) → apply_update s u ≡ ok t → Accepts s u t
  unfolding apply_update
  apply_update-Accepts s t (delta_update q d) h =
      let (f, e) = ok-Fits s t d q h in
      let k = apply_change-KeepsCursor s d.change in
      record {
        agent = f.agent;
        agent_kept = rw e k.agent;
        later = f.later;
        sequence = rw e refl;
        revises = (f.base, rw e refl, rw e f.next);
      }
  apply_update-Accepts s t (event_update a q event) h = record {
    agent = ground arith;
    agent_kept = ground arith;
    later = ground arith;
    sequence = ground arith;
    revises = ground arith;
  }

  -- An update of an agent event only moves the sequence.
  pub apply_update-event :
      (s : AgentSnapshot) (q : EventSequence) (event : M)
      → s.event_sequence < q
      → apply_update s (event_update s.agent_id q event) ≡ ok (record s { event_sequence = q })
  unfolding apply_update
  apply_update-event s q event h = ground arith

  pub apply_updates-append :
      (s : AgentSnapshot) (us vs : List (AgentUpdate M))
      → apply_updates s (us ++ vs) ≡ (apply_updates s us >>= λ t. apply_updates t vs)
  apply_updates-append s [] vs = refl
  apply_updates-append s (u ∷ us) vs =
      bind_congr (apply_update s u) (λ t. apply_updates t (us ++ vs))
        (λ t. apply_updates t us >>= λ r. apply_updates r vs) (λ t. apply_updates-append t us vs)
      ∙ sym (bind_assoc (apply_update s u) (λ t. apply_updates t us) (λ r. apply_updates r vs))

  -- Accepted updates keep the agent and never lower the revision.
  pub apply_updates-kept :
      (s t : AgentSnapshot) (us : List (AgentUpdate M))
      → s.revision ≤ u64_max
      → apply_updates s us ≡ ok t
      → (t.agent_id ≡ s.agent_id) × (s.revision ≤ t.revision) × (t.revision ≤ u64_max)
  apply_updates-kept s t [] b h = ground arith
  apply_updates-kept s t (u ∷ us) b h =
      let (a, e, r) = >>=-eq-ok (apply_update s u) (λ a. apply_updates a us) h in
      let v = apply_update-Accepts s a u e in
      let m = Revises-mono u s.revision a.revision v.revises b in
      let k = apply_updates-kept a t us m.1 r in (k.0 ∙ v.agent_kept, omega (arith, m.0, k.1), k.2)
