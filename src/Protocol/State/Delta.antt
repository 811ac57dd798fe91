-- ===== src/Protocol/State/Delta.antt =====
-- `apply_delta` and `apply_update`. A call that fails returns before its first write, so the
-- result carries the new snapshot only where it succeeds.
use mathlib.Core.Logic.{ite}
use omp_remote.Prelude.{
  List, [], ◌∷◌, Result, ok, err, ◌>>=◌, ◌>>◌, String_discrete, leb, ◌==◌, not, reject_if,
  saturating_add,
}
use omp_remote.Protocol.Id.{AgentId}
use omp_remote.Protocol.State.Types.{
  EventSequence, AgentSnapshot, StateDelta, AgentUpdate, delta_update, event_update,
  DeltaApplyError, wrong_agent, revision_mismatch, non_consecutive_revision, stale_event_sequence,
}
use omp_remote.Protocol.State.Change.{apply_change}

unfoldable pub validate_update_cursor :
    AgentSnapshot → AgentId → EventSequence → Result DeltaApplyError (Unit {0})
validate_update_cursor s agent_id event_sequence = do
  ite (String_discrete agent_id s.agent_id) (ok tt) (err (wrong_agent s.agent_id agent_id))
  reject_if (leb event_sequence s.event_sequence)
      (stale_event_sequence s.event_sequence event_sequence)

unfoldable pub apply_delta :
    AgentSnapshot → StateDelta → EventSequence → Result DeltaApplyError AgentSnapshot
unfolding validate_update_cursor
apply_delta s delta event_sequence = do
  validate_update_cursor s delta.agent_id event_sequence
  reject_if (not (delta.base_revision == s.revision))
      (revision_mismatch s.revision delta.base_revision)
  reject_if (not (delta.revision == saturating_add delta.base_revision 1))
      (non_consecutive_revision delta.base_revision delta.revision)
  ok (record (apply_change s delta.change) {
    revision = delta.revision;
    event_sequence = event_sequence;
  })

module _ {M : Type 0} where
  -- `AgentUpdate::event_sequence`.
  abbrev pub update_sequence : AgentUpdate M → EventSequence
  update_sequence (delta_update event_sequence delta) = event_sequence
  update_sequence (event_update agent_id event_sequence event) = event_sequence

  unfoldable pub apply_update : AgentSnapshot → AgentUpdate M → Result DeltaApplyError AgentSnapshot
  unfolding validate_update_cursor
  apply_update s (delta_update event_sequence delta) = apply_delta s delta event_sequence
  apply_update s (event_update agent_id event_sequence event) = do
    validate_update_cursor s agent_id event_sequence
    ok (record s { event_sequence = event_sequence })

  -- A client that applies a replay in order and stops at the first error.
  abbrev pub apply_updates :
      AgentSnapshot → List (AgentUpdate M) → Result DeltaApplyError AgentSnapshot
  apply_updates s [] = ok s
  apply_updates s (u ∷ us) = apply_update s u >>= λ t. apply_updates t us
