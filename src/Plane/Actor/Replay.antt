-- ===== src/Plane/Actor/Replay.antt =====
-- `subscription_start` of actor.rs against the history of the agent.
use omp_remote.Prelude.{
  ℕ, suc, ◌+◌, ◌≤◌, ◌<◌, ◌≡◌, refl, true, false, List, [], ◌∷◌, ◌++◌, arith, dec_lt, length, ok,
  >>=-eq-ok, ap, sym, ◌∙◌, u64_max, checked_add, some, leb, if◌then◌else◌, length-append, subst,
  append_split, nil_of_length,
}
use omp_remote.Protocol.State.{
  AgentSnapshot, AgentUpdate, delta_update, event_update, update_sequence, apply_update,
  apply_updates, SubscriptionCursor, replay, resync_required,
}
use omp_remote.Protocol.State.Advance.{Accepts, apply_update-Accepts, apply_updates-kept}
use omp_remote.Plane.Actor.Log.{later_than, follow, reaches, replay_reaches_snapshot, start_for}
use omp_remote.Plane.Actor.Sequence.{
  Contiguous, Contiguous-right, Contiguous-left, sequence-replayed, later_than-all, later_than-none,
  later_than-append,
}

-- The cursor of a client that holds the snapshot.
abbrev pub cursor_of : AgentSnapshot → SubscriptionCursor
cursor_of c = record {
  agent_id = c.agent_id;
  revision = c.revision;
  event_sequence = c.event_sequence;
}

module _ {M : Type 0} where
  follow-accepted :
      (c a : AgentSnapshot) (u : AgentUpdate M)
      → Accepts c u a
      → update_sequence u ≡ suc c.event_sequence
      → suc c.event_sequence < u64_max
      → follow c.agent_id (suc c.event_sequence) c.revision u
        ≡ some (suc (suc c.event_sequence), a.revision)
  unfolding follow checked_add
  follow-accepted c a (delta_update q d) v e m = ground (arith, v.agent, v.revises)
  follow-accepted c a (event_update b q event) v e m = ground (arith, v.agent, v.revises)

  -- A contiguous log that leads from one snapshot to another passes the check.
  reaches-replayed :
      (c t : AgentSnapshot) (us : List (AgentUpdate M))
      → Contiguous c.event_sequence us
      → apply_updates c us ≡ ok t
      → t.event_sequence < u64_max
      → reaches c.agent_id (suc c.event_sequence) c.revision us t ≡ true
  unfolding reaches
  reaches-replayed c t [] k h m = ground arith
  reaches-replayed c t (u ∷ us) k h m =
      let (a, e, r) = >>=-eq-ok (apply_update c u) (λ a. apply_updates a us) h in
      let v = apply_update-Accepts c a u e in
      let q = v.sequence ∙ k.0 in
      let k' : Contiguous a.event_sequence us = rw (← q) at k.1 in
      let last = sequence-replayed a t us k' r in
      rw (follow-accepted c a u v k.0 (omega (arith, last, q)), reaches)
        (subst (λ x. reaches x (suc (suc c.event_sequence)) a.revision us t ≡ true) v.agent_kept
          (subst (λ n. reaches a.agent_id (suc n) a.revision us t ≡ true) q
            (reaches-replayed a t us k' r m)))

  -- A log that does not begin right after the cursor fails it.
  reaches-gap :
      (c t : AgentSnapshot) (n : ℕ) (us : List (AgentUpdate M))
      → Contiguous n us
      → t.event_sequence ≡ n + length us
      → c.event_sequence < n
      → reaches c.agent_id (suc c.event_sequence) c.revision us t ≡ false
  unfolding reaches
  reaches-gap c t n [] k e h = ground arith
  reaches-gap c t n (delta_update q d ∷ us) k e h = unfold follow in ground arith
  reaches-gap c t n (event_update b q event ∷ us) k e h = unfold follow in ground arith

  reaches_from :
      (c t : AgentSnapshot) (us : List (AgentUpdate M))
      → c.event_sequence < u64_max
      → replay_reaches_snapshot (cursor_of c) us t
        ≡ reaches c.agent_id (suc c.event_sequence) c.revision us t
  unfolding replay_reaches_snapshot
  reaches_from c t us h = rw (next c.event_sequence h, replay_reaches_snapshot)
    where
      next : (n : ℕ) → n < u64_max → checked_add n 1 ≡ some (suc n)
      next n h = unfold checked_add in ground arith

  -- With the cursor behind the snapshot, the check of the later updates decides.
  start_behind :
      (c t : AgentSnapshot) (log : List (AgentUpdate M))
      → c.agent_id ≡ t.agent_id
      → c.revision ≤ t.revision
      → c.event_sequence < t.event_sequence
      → start_for t log (cursor_of c) ≡ (
          if replay_reaches_snapshot (cursor_of c) (later_than c.event_sequence log) t
          then replay (later_than c.event_sequence log)
          else resync_required t)
  unfolding start_for
  start_behind c t log a r q = ground arith

  start_level :
      (c : AgentSnapshot) (log : List (AgentUpdate M)) → start_for c log (cursor_of c) ≡ replay []
  unfolding start_for
  start_level c log = ground arith

-- A client's snapshot `c` is the agent's after the updates `before`; `after` lead from there to the
-- present snapshot `t`; and the replay buffer `log` holds the last of them all.
module _ {M : Type 0} (c t : AgentSnapshot) (q : ℕ) (before after older log : List (AgentUpdate M))
    (contiguous : Contiguous q (before ++ after)) (at_client : c.event_sequence ≡ q + length before)
    (caught_up : apply_updates c after ≡ ok t) (buffered : before ++ after ≡ older ++ log)
    (in_range : c.revision ≤ u64_max) (not_last : t.event_sequence < u64_max) where
  after-Contiguous : Contiguous c.event_sequence after
  after-Contiguous = rw at_client (Contiguous-right q before after contiguous)

  now-sequence : t.event_sequence ≡ c.event_sequence + length after
  now-sequence = sequence-replayed c t after after-Contiguous caught_up

  start_missing :
      0 < length after
      → (us : List (AgentUpdate M)) → later_than c.event_sequence log ≡ us
      → start_for t log (cursor_of c) ≡ (
          if reaches c.agent_id (suc c.event_sequence) c.revision us t
          then replay us
          else resync_required t)
  start_missing pos us e =
      let k = apply_updates-kept c t after in_range caught_up in
      start_behind c t log (sym k.0) k.1 (omega (arith, now-sequence))
      ∙ rw (e, reaches_from c t us (omega (arith, now-sequence))) refl

  -- The buffer still holds all that the client lacks.
  start_held :
      0 < length after → length after ≤ length log → start_for t log (cursor_of c) ≡ replay after
  start_held pos fits =
      let (mid, e, b) = append_split before after older log buffered fits in
      let kq = Contiguous-left q before after contiguous in
      let k = Contiguous-right q older mid (subst (Contiguous q) b kq) in
      let len = ap length b ∙ length-append older mid in
      let only =
        ap (later_than c.event_sequence) e
        ∙ later_than-append c.event_sequence mid after
        ∙ ap (λ us. us ++ later_than c.event_sequence after)
            (later_than-none c.event_sequence (q + length older) mid k
              (omega (arith, len, at_client)))
        ∙ later_than-all c.event_sequence c.event_sequence after after-Contiguous (omega arith) in
      start_missing pos after only
      ∙ rw (reaches-replayed c t after after-Contiguous caught_up not_last) refl

  -- The buffer has lost some of it.
  start_lost : length log < length after → start_for t log (cursor_of c) ≡ resync_required t
  start_lost short =
      let (gap, e, b) = append_split older log before after (sym buffered) (omega arith) in
      let k =
        Contiguous-right c.event_sequence gap log
          (subst (Contiguous c.event_sequence) e after-Contiguous) in
      let len = ap length e ∙ length-append gap log in
      start_missing (omega arith) log
        (later_than-all c.event_sequence (c.event_sequence + length gap) log k (omega arith))
      ∙ rw
          (reaches-gap c t (c.event_sequence + length gap) log k (omega (arith, len, now-sequence))
            (omega (arith, len)))
          refl

  start_none : after ≡ [] → start_for t log (cursor_of c) ≡ replay after
  start_none e =
      let same : c ≡ t = cc (caught_up, ap (apply_updates c) e) in
      subst (λ s. start_for s log (cursor_of c) ≡ replay after) same
        (start_level c log ∙ ap replay (sym e))

  -- The client is given `after` if the buffer is long enough to hold it, and otherwise `t`.
  pub start_exact :
      start_for t log (cursor_of c)
      ≡ (if leb (length after) (length log) then replay after else resync_required t)
  start_exact = elim (dec_lt (length log) (length after)) [
    | yes short ↦ ground (arith, start_lost short)
    | no fits ↦ elim (dec_lt 0 (length after)) [
      | yes pos ↦ ground (arith, start_held pos (omega arith))
      | no none_left ↦ ground (arith, start_none (nil_of_length after (omega arith)))
    ]
  ]
