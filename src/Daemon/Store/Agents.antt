-- ===== src/Daemon/Store/Agents.antt =====
-- The calls of store.rs on agents and their sessions. Readback is about what they write and read.
pub mod Readback
use omp_remote.Prelude.{
  ℕ, ℤ, pos, negsuc, ◌^◌, String, Bool, true, false, Option, none, some, List, [], ◌∷◌, Result, ok,
  err, ◌>>=◌, map_err, transpose, ltb, if◌then◌else◌,
}
use omp_remote.Prelude.BTreeMap
use omp_remote.Prelude.BTreeMap.{BTreeMap, contains_key}
use omp_remote.Protocol.Id.{AgentId, RunId, IdentifierError, new_identifier}
use omp_remote.Protocol.Frame.Types.{Payloads}
use omp_remote.Daemon.Store.Types.{
  Outside, AgentRecord, AgentRow, SessionResumeRecord, SessionRow, StoreError, database,
  corrupt_data,
}
use omp_remote.Daemon.Store.Columns.{sql_u64, wire_u64, encode_lifecycle, decode_lifecycle}
use omp_remote.Daemon.Store.Devices.Ops.{corrupt_identifier}
use omp_remote.Daemon.Store.Operations.Ops.{Db}

-- `i64::from` on an optional u32.
abbrev pub pid_column : Option ℕ → Option ℤ
pid_column none = none
pid_column (some n) = some (pos n)

-- `u32::try_from`
abbrev pub wire_pid : ℤ → Result StoreError ℕ
wire_pid (pos n) = if ltb n (2 ^ 32) then ok n else err (corrupt_data "invalid process ID")
wire_pid (negsuc n) = err (corrupt_data "invalid process ID")

-- `$name::new` with the error of the store.
abbrev pub wire_id : String → String → Result StoreError String
wire_id label value = map_err corrupt_identifier (new_identifier label value)

-- On a conflict the row keeps the time at which it was made.
abbrev pub kept_created : Option AgentRow → ℤ → ℤ
kept_created none created = created
kept_created (some row) created = row.created_at_ms

abbrev pub agent_row : AgentRecord → Option AgentRow → ℤ → ℤ → AgentRow
agent_row a old created updated = record {
  lifecycle = (encode_lifecycle a.lifecycle).0;
  failure_reason = (encode_lifecycle a.lifecycle).1;
  process_id = pid_column a.process_id;
  active_run_id = a.active_run_id;
  created_at_ms = kept_created old created;
  updated_at_ms = updated;
}

unfoldable pub decode_agent : AgentId → AgentRow → Result StoreError AgentRecord
unfolding decode_lifecycle new_identifier wire_u64
decode_agent agent_id row = wire_id "agent ID" agent_id >>= λ id.
    decode_lifecycle row.lifecycle row.failure_reason >>= λ lifecycle.
    transpose wire_pid row.process_id >>= λ process_id.
    transpose (wire_id "run ID") row.active_run_id >>= λ run_id.
    wire_u64 row.created_at_ms "agent created_at_ms" >>= λ created.
    wire_u64 row.updated_at_ms "agent updated_at_ms" >>= λ updated. ok (record {
      agent_id = id;
      lifecycle = lifecycle;
      process_id = process_id;
      active_run_id = run_id;
      created_at_ms = created;
      updated_at_ms = updated;
    })

abbrev pub session_row : SessionResumeRecord → ℤ → ℤ → ℤ → SessionRow
session_row s revision event_sequence updated = record {
  session_id = s.session_id;
  session_file = s.session_file;
  revision = revision;
  event_sequence = event_sequence;
  updated_at_ms = updated;
}

unfoldable pub decode_session : AgentId → SessionRow → Result StoreError SessionResumeRecord
unfolding new_identifier wire_u64
decode_session agent_id row = wire_id "agent ID" agent_id >>= λ id.
    wire_u64 row.revision "session revision" >>= λ revision.
    wire_u64 row.event_sequence "session event sequence" >>= λ event_sequence.
    wire_u64 row.updated_at_ms "session updated_at_ms" >>= λ updated. ok (record {
      agent_id = id;
      session_id = row.session_id;
      session_file = row.session_file;
      revision = revision;
      event_sequence = event_sequence;
      updated_at_ms = updated;
    })

module _ {P : Payloads} (o : Outside P) where
  -- `upsert_agent`: the tables, unless a time is out of range.
  unfoldable pub upsert_agent : AgentRecord → Db o → Result StoreError (Db o)
  unfolding sql_u64 encode_lifecycle
  upsert_agent a c = sql_u64 a.created_at_ms "agent created_at_ms" >>= λ created.
      sql_u64 a.updated_at_ms "agent updated_at_ms" >>= λ updated. ok (record c {
        agents =
            BTreeMap.insert a.agent_id
              (agent_row a (BTreeMap.get a.agent_id c.agents) created updated) c.agents;
      })

  unfoldable pub agent : AgentId → Db o → Result StoreError (Option AgentRecord)
  unfolding decode_agent
  agent agent_id c = transpose (decode_agent agent_id) (BTreeMap.get agent_id c.agents)

  abbrev pub decode_agents : BTreeMap AgentRow → Result StoreError (List AgentRecord)
  decode_agents [] = ok []
  decode_agents ((agent_id, row) ∷ rows) =
      decode_agent agent_id row >>= λ a. decode_agents rows >>= λ rest. ok (a ∷ rest)

  -- `agents`: all, in the order of their IDs.
  abbrev pub agents : Db o → Result StoreError (List AgentRecord)
  agents c = decode_agents c.agents

  -- `upsert_session`: a session belongs to an agent that the store has.
  unfoldable pub upsert_session : SessionResumeRecord → Db o → Result StoreError (Db o)
  unfolding sql_u64
  upsert_session s c = sql_u64 s.revision "session revision" >>= λ revision.
      sql_u64 s.event_sequence "session event sequence" >>= λ event_sequence.
      sql_u64 s.updated_at_ms "session updated_at_ms" >>= λ updated.
      (if contains_key s.agent_id c.agents
        then ok (record c {
          sessions =
              BTreeMap.insert s.agent_id (session_row s revision event_sequence updated) c.sessions;
        })
        else err database)

  unfoldable pub session : AgentId → Db o → Result StoreError (Option SessionResumeRecord)
  unfolding decode_session
  session agent_id c = transpose (decode_session agent_id) (BTreeMap.get agent_id c.sessions)
