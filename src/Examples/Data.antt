-- ===== src/Examples/Data.antt =====
-- The values of the runs: payloads without content, a hash and a codec, snapshots and frames.
use omp_remote.Prelude.{ℕ, suc, String, none, some, [], ◌∷◌, ok, String_discrete, pos}
use omp_remote.Protocol.State.{
  AgentSnapshot, AgentUpdate, delta_update, event_update, initial, lifecycle_changed, running,
}
use omp_remote.Protocol.Frame.Types.{
  Payloads, ServerMessage, transport, ControlRequest, prompt, ResponseOutcome, success, accepted,
  RequestEnvelope, all_scopes, cli,
}
use omp_remote.Plane.Mpsc.{Mpsc, queue}
use omp_remote.Plane.Actor.Types.{ActorState, Clock}
use omp_remote.Daemon.Store.Types.{
  Outside, DeviceRow, DeviceRecord, OperationKey, PairingRow, AgentRecord, SessionResumeRecord,
}
use omp_remote.Daemon.Store.Agents.{agent_row, session_row}
use omp_remote.Daemon.Store.Operations.Ops.{Db, Row, claimed_row}
use omp_remote.Daemon.Requests.{Context}

abbrev pub payloads : Payloads
payloads = record {
  Response = ℕ;
  Transport = ℕ;
  UiRequest = ℕ;
  Host = ℕ;
  SideChannel = ℕ;
  Subagent = ℕ;
  SessionEvent = ℕ;
  UiResponse = ℕ;
  Image = ℕ;
  Streaming = ℕ;
}

-- What the codec of the runs writes: the request or the outcome itself.
pub data Bytes : Type 0 where
  request_bytes : ControlRequest payloads → Bytes
  outcome_bytes : ResponseOutcome → Bytes

abbrev request_text : Bytes → String
request_text (request_bytes (prompt agent_id message images streaming)) = message
request_text _ = "another"

abbrev decode_bytes : Bytes → ResponseOutcome
decode_bytes (request_bytes request) = success accepted
decode_bytes (outcome_bytes outcome) = outcome

abbrev pub outside : Outside payloads
outside = record {
  Hash = String;
  Hash_discrete = String_discrete;
  hash_secret = λ s. s;
  Blob = Bytes;
  encode_request = λ r. ok (request_bytes r);
  hash_blob = request_text;
  encode_outcome = λ x. ok (outcome_bytes x);
  decode_outcome = λ b. ok (decode_bytes b);
}

abbrev pub channels : Mpsc (AgentUpdate (ServerMessage payloads))
channels = queue

abbrev pub genesis : AgentSnapshot
genesis = initial "agent"

-- The first update of the agent is an event, the second one the start of its run.
abbrev pub first_update : AgentUpdate (ServerMessage payloads)
first_update = event_update "agent" 1 (transport 7)

abbrev pub second_update : AgentUpdate (ServerMessage payloads)
second_update = delta_update 2 (record {
  agent_id = "agent";
  base_revision = 0;
  revision = 1;
  change = lifecycle_changed running;
})

abbrev pub at_one : AgentSnapshot
at_one = record genesis { event_sequence = 1 }

abbrev pub at_two : AgentSnapshot
at_two = record genesis { event_sequence = 2; revision = 1; lifecycle = running }

-- An actor that has room for one update in its replay buffer.
abbrev pub actor : ActorState channels
actor = record {
  snapshot = at_two;
  replay = second_update ∷ [];
  replay_capacity = 1;
  subscriber_capacity = 1;
  subscribers = [];
  lease_deadline = none;
  detached = [];
  next_subscription = 0;
}

abbrev pub noon : Clock
noon = record { instant = 1000; last_instant = 1000000 }

-- A store with one device and one pairing.
abbrev pub laptop_row : DeviceRow String
laptop_row = record {
  name = "laptop";
  platform = "cli";
  scopes = all_scopes;
  token_hash = "token";
  created_at_ms = pos 5;
  last_seen_at_ms = none;
  revoked_at_ms = none;
}

abbrev pub laptop : DeviceRecord
laptop = record {
  device_id = "laptop";
  name = "laptop";
  platform = cli;
  scopes = all_scopes;
  created_at_ms = 5;
  last_seen_at_ms = none;
  revoked_at_ms = none;
}

abbrev pub phone_pairing : PairingRow String
phone_pairing = record {
  requested_name = "phone";
  scopes = all_scopes;
  secret_hash = "secret";
  created_at_ms = pos 5;
  expires_at_ms = pos 100;
  consumed_at_ms = none;
}

abbrev pub db : Db outside
db = record {
  agents = [];
  sessions = [];
  devices = ("laptop", laptop_row) ∷ [];
  pairing_secrets = ("phone", phone_pairing) ∷ [];
  operations = [];
}

abbrev pub key : OperationKey
key = record { device_id = "laptop"; operation_id = "op" }

abbrev pub hello_prompt : ControlRequest payloads
hello_prompt = prompt "agent" "hello" [] none

abbrev pub envelope : RequestEnvelope payloads
envelope = record { request_id = "1"; operation_id = some "op"; request = hello_prompt }

-- A controller that counts its calls.
abbrev pub context : Context outside ℕ
context = record {
  execute = λ request s. (success accepted, suc s);
  elsewhere = λ c. c;
  claimed_at = 10;
  completed_at = 11;
  invalid_text = λ _. "invalid";
  operation_text = λ _. "refused";
}

abbrev pub later_context : Context outside ℕ
later_context = record context { claimed_at = 20; completed_at = 21 }

-- An agent whose process was started, and its session.
abbrev pub worker : AgentRecord
worker = record {
  agent_id = "worker";
  lifecycle = running;
  process_id = some 4711;
  active_run_id = none;
  created_at_ms = 5;
  updated_at_ms = 6;
}

abbrev pub worker_db : Db outside
worker_db = record db { agents = ("worker", agent_row worker none (pos 5) (pos 6)) ∷ [] }

abbrev pub worker_session : SessionResumeRecord
worker_session = record {
  agent_id = "worker";
  session_id = "s";
  session_file = "s.jsonl";
  revision = 3;
  event_sequence = 9;
  updated_at_ms = 7;
}

abbrev pub worker_session_db : Db outside
worker_session_db = record worker_db {
  sessions = ("worker", session_row worker_session (pos 3) (pos 9) (pos 7)) ∷ [];
}

abbrev pub phone_key : OperationKey
phone_key = record { device_id = "phone"; operation_id = "op" }

abbrev pub laptop_operation : ℕ → Row outside
laptop_operation n = claimed_row outside key "hash" (pos n)

abbrev pub phone_operation : Row outside
phone_operation = claimed_row outside phone_key "hash" (pos 1)

-- An old operation of the laptop, one of the phone, and a later one of the laptop.
abbrev pub busy_db : Db outside
busy_db = record db {
  operations =
      record (laptop_operation 5) { operation_id = "old" }
      ∷ phone_operation
      ∷ laptop_operation 50
      ∷ [];
}
