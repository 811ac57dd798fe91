-- ===== src/Plane/Actor/Log.antt =====
-- The replay buffer, the offers to the subscribers, and where a subscriber starts.
use mathlib.Core.Logic.{ite}
use mathlib.Core.List.{filter}
use omp_remote.Prelude.{
  ℕ, ◌-◌, Bool, true, false, ◌&&◌, ◌||◌, not, Option, none, some, List, [], ◌∷◌, ◌++◌, dec_lt,
  String_discrete, ltb, ◌==◌, if◌then◌else◌, length, pop_front, checked_add,
}
use omp_remote.Protocol.Id.{AgentId}
use omp_remote.Protocol.State.{
  AgentSnapshot, AgentUpdate, delta_update, event_update, update_sequence, StateRevision,
  SubscriptionCursor, SubscriptionStart, replay, resync_required,
}
use omp_remote.Plane.Mpsc.{Mpsc, sent, full, closed}
use omp_remote.Plane.Actor.Types.{Subscriber, ActorState}

-- `string != string`.
abbrev pub differs : AgentId → AgentId → Bool
differs a b = ite (String_discrete a b) false true

module _ {M : Type 0} where
  -- One round of the loop of `replay_reaches_snapshot`: the next sequence and revision, or `none`
  -- where the source returns false.
  unfoldable pub follow : AgentId → ℕ → StateRevision → AgentUpdate M → Option (ℕ × StateRevision)
  follow agent_id expected revision (delta_update q delta) =
      if not (q == expected)
        || differs delta.agent_id agent_id
        || not (delta.base_revision == revision)
      then none
      else elim (checked_add expected 1) [ none ↦ none | some next ↦ some (next, delta.revision) ]
  follow agent_id expected revision (event_update a q event) =
      if not (q == expected) || differs a agent_id
      then none
      else elim (checked_add expected 1) [ none ↦ none | some next ↦ some (next, revision) ]

  unfoldable pub reaches : AgentId → ℕ → StateRevision → List (AgentUpdate M) → AgentSnapshot → Bool
  unfolding follow
  reaches agent_id expected revision [] s =
      revision == s.revision && (ltb 0 expected && expected - 1 == s.event_sequence)
  reaches agent_id expected revision (u ∷ us) s = elim (follow agent_id expected revision u) [
    | none ↦ false
    | some (next, r) ↦ reaches agent_id next r us s
  ]

  unfoldable pub replay_reaches_snapshot :
      SubscriptionCursor → List (AgentUpdate M) → AgentSnapshot → Bool
  unfolding reaches
  replay_reaches_snapshot cursor us s = elim (checked_add cursor.event_sequence 1) [
    | none ↦ false
    | some expected ↦ reaches cursor.agent_id expected cursor.revision us s
  ]

  -- The updates that are later than the cursor.
  abbrev pub later_than : ℕ → List (AgentUpdate M) → List (AgentUpdate M)
  later_than q = filter (λ u. dec_lt q (update_sequence u))

  -- `subscription_start`, on the two fields of the state that it reads.
  unfoldable pub start_for :
      AgentSnapshot → List (AgentUpdate M) → SubscriptionCursor → SubscriptionStart M
  unfolding replay_reaches_snapshot
  start_for s log cursor =
      if differs cursor.agent_id s.agent_id
        || ltb s.revision cursor.revision
        || ltb s.event_sequence cursor.event_sequence
      then resync_required s
      else if cursor.revision == s.revision && cursor.event_sequence == s.event_sequence
      then replay []
      else let updates = later_than cursor.event_sequence log in
        if replay_reaches_snapshot cursor updates s then replay updates else resync_required s

  -- The replay buffer after an update: at its capacity it loses the oldest one.
  abbrev pub push_replay : ℕ → List (AgentUpdate M) → AgentUpdate M → List (AgentUpdate M)
  push_replay capacity log u = (if length log == capacity then pop_front log else log) ++ u ∷ []

module _ {M : Type 0} (mpsc : Mpsc (AgentUpdate M)) where
  -- The `retain` of `record`: each subscriber is offered the update. Those that took it come
  -- first, then those that the actor drops, of which a full one is told to resynchronise.
  unfoldable pub offer_all :
      AgentUpdate M → List (Subscriber mpsc) → List (Subscriber mpsc) × List (Subscriber mpsc)
  offer_all u [] = ([], [])
  offer_all u (s ∷ ss) =
      let (kept, dropped) = offer_all u ss in
      let (outcome, channel) = mpsc.try_send u s.updates in
      elim outcome [
        | sent ↦ (record s { updates = channel } ∷ kept, dropped)
        | full ↦ (kept, record s { updates = channel; resync_required = true } ∷ dropped)
        | closed ↦ (kept, record s { updates = channel } ∷ dropped)
      ]

  -- `record`.
  unfoldable pub record_update : ActorState mpsc → AgentUpdate M → ActorState mpsc
  unfolding offer_all
  record_update st u =
      let (kept, dropped) = offer_all u st.subscribers in
      record st {
        replay = push_replay st.replay_capacity st.replay u;
        subscribers = kept;
        detached = st.detached ++ dropped;
      }
