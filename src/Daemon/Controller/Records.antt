-- ===== src/Daemon/Controller/Records.antt =====
-- What crates/ompd/src/controller.rs computes of records, answers and errors.
use Prim.Native.String.{◌++◌ as str_append}
use mathlib.Core.Logic.{ite}
use omp_remote.Prelude.{
  ℕ, Bool, true, false, ◌&&◌, String, Option, none, some, List, [], ◌∷◌, Result, ok, err, ◌>>=◌,
  String_discrete, ltb,
}
use omp_remote.Protocol.Id.{AgentId, RunId, LeaseHolderId}
use omp_remote.Protocol.State.{
  AgentSnapshot, AgentLifecycle, InteractionState, unclaimed, leased, SessionSummary,
}
use omp_remote.Protocol.Frame.Types.{
  Payloads, DeviceSummary, ProtocolError, ControlResponse, ResponseOutcome,
}
use omp_remote.Runtime.Types.{RuntimeStatus, Response}
use omp_remote.Daemon.Store.Types.{
  Outside, StoreError, AgentRecord, DeviceRecord, SessionResumeRecord,
}
use omp_remote.Daemon.Store.Operations.Ops.{Db}
use omp_remote.Daemon.Store.Agents.{agent, agents, session, upsert_agent}
use omp_remote.Daemon.Controller.Types.{
  ControllerError, not_found, device_not_found, not_running, already_running,
  interaction_lease_required, rpc, control_plane, persistence,
}

-- `(!images.is_empty()).then_some(images)`
abbrev pub non_empty : {A : Type 0} → List A → Option (List A)
non_empty [] = none
non_empty (a ∷ rest) = some (a ∷ rest)

abbrev pub device_summary : DeviceRecord → DeviceSummary
device_summary d = record {
  device_id = d.device_id;
  name = d.name;
  platform = d.platform;
  scopes = d.scopes;
  created_at_ms = d.created_at_ms;
  last_seen_at_ms = d.last_seen_at_ms;
  revoked_at_ms = d.revoked_at_ms;
}

-- Whether the interaction is leased to the holder, and the lease has not run out.
unfoldable pub holds_lease : InteractionState → LeaseHolderId → ℕ → Bool
holds_lease unclaimed holder now_ms = false
holds_lease (leased lease) holder now_ms =
    ite (String_discrete lease.holder holder) true false && ltb now_ms lease.expires_at_ms

abbrev pub process_id_of : RuntimeStatus → Option ℕ
process_id_of (RuntimeStatus.running process_id) = some process_id
process_id_of (RuntimeStatus.exited exit) = none
process_id_of (RuntimeStatus.failed message) = none

abbrev pub is_running : RuntimeStatus → Bool
is_running (RuntimeStatus.running process_id) = true
is_running (RuntimeStatus.exited exit) = false
is_running (RuntimeStatus.failed message) = false

abbrev pub unwrap_or : Option String → String → String
unwrap_or none other = other
unwrap_or (some text) other = text

unfoldable pub ensure_rpc_success : {B : Type 0} → Response B → Result ControllerError (Unit {0})
ensure_rpc_success (Response.success id result) = ok tt
ensure_rpc_success (Response.error id command message code) =
    err (rpc (unwrap_or code "omp_error") message)

abbrev pub texts : String → String → String → String
texts before id after = str_append before (str_append id after)

abbrev pub protocol_error_of : String → String → Bool → ProtocolError
protocol_error_of code message retryable = record {
  code = code;
  message = message;
  retryable = retryable;
}

unfoldable pub into_protocol_error : ControllerError → ProtocolError
into_protocol_error (not_found id) =
    protocol_error_of "agent_not_found" (texts "agent " id " was not found") false
into_protocol_error (not_running id) =
    protocol_error_of "agent_not_running" (texts "agent " id " is not running") false
into_protocol_error (already_running id) =
    protocol_error_of "agent_already_running" (texts "agent " id " is already running") false
into_protocol_error (device_not_found id) =
    protocol_error_of "device_not_found" (texts "active device " id " was not found") false
into_protocol_error interaction_lease_required =
    protocol_error_of "interaction_lease_required"
      "an active interaction lease owned by this client is required" false
into_protocol_error (ControllerError.runtime message) =
    protocol_error_of "runtime_error" message true
into_protocol_error (rpc code message) = protocol_error_of code message false
into_protocol_error (control_plane message) = protocol_error_of "control_plane_error" message true
into_protocol_error (persistence message) = protocol_error_of "persistence_error" message true

abbrev pub outcome_of : Result ControllerError ControlResponse → ResponseOutcome
unfolding into_protocol_error
outcome_of (ok response) = ResponseOutcome.success response
outcome_of (err e) = ResponseOutcome.error (into_protocol_error e)

-- The session of an agent that is restored, with its revision and its event sequence.
abbrev pub resume_point : Option SessionResumeRecord → Option SessionSummary × ℕ × ℕ
resume_point none = (none, 0, 0)
resume_point (some s) = (
  some (record {
    session_id = s.session_id;
    session_file = some s.session_file;
    name = none;
    message_count = 0;
  }),
  s.revision,
  s.event_sequence,
)

abbrev pub resumed : AgentRecord → Option SessionResumeRecord → AgentSnapshot
resumed a s = record {
  agent_id = a.agent_id;
  revision = (resume_point s).1;
  event_sequence = (resume_point s).2;
  lifecycle = a.lifecycle;
  session = (resume_point s).0;
  active_run = none;
  recent_runs = [];
  interaction = unclaimed;
  available_commands = [];
}

module _ {P : Payloads} (o : Outside P) where
  abbrev pub created_before : Option AgentRecord → ℕ → ℕ
  created_before none now_ms = now_ms
  created_before (some a) now_ms = a.created_at_ms

  -- The two calls of the store in `persist_snapshot`, which holds its lock between them.
  unfoldable pub save_agent :
      AgentId → AgentLifecycle → Option ℕ → Option RunId → ℕ → Db o → Result StoreError (Db o)
  unfolding agent upsert_agent
  save_agent agent_id lifecycle process_id active_run_id now_ms c = agent o agent_id c >>= λ old.
      upsert_agent o
        (record {
          agent_id = agent_id;
          lifecycle = lifecycle;
          process_id = process_id;
          active_run_id = active_run_id;
          created_at_ms = created_before old now_ms;
          updated_at_ms = now_ms;
        })
        c

  -- The snapshots with which `DaemonController::new` restores the agents.
  abbrev pub resume_all : List AgentRecord → Db o → Result StoreError (List AgentSnapshot)
  resume_all [] c = ok []
  resume_all (a ∷ rest) c = session o a.agent_id c >>= λ s.
      resume_all rest c >>= λ snapshots. ok (resumed a s ∷ snapshots)

  unfoldable pub recovered : Db o → Result StoreError (List AgentSnapshot)
  unfolding agent session
  recovered c = agents o c >>= λ records. resume_all records c
