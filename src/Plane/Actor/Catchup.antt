-- ===== src/Plane/Actor/Catchup.antt =====
-- What a client that held any past snapshot is given by `subscribe` of actor.rs.
use omp_remote.Prelude.{
  ◌≤◌, ◌<◌, ◌≡◌, List, ◌++◌, ok, ◌>>=◌, ap, sym, ◌∙◌, some, u64_max, length, leb, if◌then◌else◌,
}
use omp_remote.Protocol.State.{AgentSnapshot, AgentUpdate, apply_updates, SubscriptionStart}
use omp_remote.Protocol.State.Advance.{apply_updates-append, apply_updates-kept}
use omp_remote.Plane.Mpsc.{Mpsc}
use omp_remote.Plane.Actor.Types.{ActorState}
use omp_remote.Plane.Actor.Ops.{subscription_start}
use omp_remote.Plane.Actor.Sequence.{Contiguous-left, sequence-replayed}
use omp_remote.Plane.Actor.History.{Logged}
use omp_remote.Plane.Actor.Replay.{cursor_of, start_exact}

module _ {M : Type 0} (mpsc : Mpsc (AgentUpdate M)) (g : AgentSnapshot) (st : ActorState mpsc)
    (before after : List (AgentUpdate M)) (c : AgentSnapshot)
    (logged : Logged mpsc g (before ++ after) st) (past : apply_updates g before ≡ ok c)
    (in_range : g.revision ≤ u64_max) where
  pub remaining : apply_updates c after ≡ ok st.snapshot
  remaining =
      sym (ap (λ r. r >>= λ t. apply_updates t after) past)
      ∙ sym (apply_updates-append g before after)
      ∙ logged.replayed

  -- A client at a past snapshot of the agent, some updates behind, is given exactly these updates
  -- if the replay buffer holds as many, and otherwise the present snapshot to resynchronise, as
  -- long as the event sequence is not at the last u64.
  pub subscription_start_exact :
      st.snapshot.event_sequence < u64_max
      → subscription_start mpsc st (some (cursor_of c)) ≡ (
          if leb (length after) (length st.replay)
          then SubscriptionStart.replay after
          else SubscriptionStart.resync_required st.snapshot)
  unfolding subscription_start
  subscription_start_exact not_last =
      start_exact c st.snapshot g.event_sequence before after logged.older st.replay
        logged.contiguous
        (sequence-replayed g c before
          (Contiguous-left g.event_sequence before after logged.contiguous) past)
        remaining logged.split (apply_updates-kept g c before in_range past).2 not_last
