-- ===== src/Daemon/Store/Agents/Readback.antt =====
-- What store.rs reads of an agent or a session that it has written.
use omp_remote.Prelude.{
  ℕ, ℤ, pos, ◌^◌, ◌<◌, ◌≡◌, ◌≢◌, refl, String, Bool, true, Option, none, some, ok, err, ◌>>=◌,
  transpose, lt→ltb, arith, >>=-eq-ok, bind_assoc, ok-injective, sym, ap, ◌∙◌, if◌then◌else◌,
}
use omp_remote.Prelude.BTreeMap
use omp_remote.Prelude.BTreeMap.{contains_key, get-insert, get-insert_same}
use omp_remote.Protocol.Id.{AgentId, new_identifier}
use omp_remote.Protocol.Frame.Types.{Payloads}
use omp_remote.Daemon.Store.Types.{Outside, AgentRecord, AgentRow, SessionResumeRecord}
use omp_remote.Daemon.Store.Columns.{sql_u64, wire_u64, decode_lifecycle, decode-encode_lifecycle}
use omp_remote.Daemon.Store.Operations.Ops.{Db}
use omp_remote.Daemon.Store.Agents.{
  pid_column, wire_pid, wire_id, kept_created, agent_row, decode_agent, session_row, decode_session,
  upsert_agent, agent, upsert_session, session,
}

-- The values that the types of a record admit: IDs that are not empty, and a process ID of 32 bits.
abbrev pub IsNamed : Option String → Type 0
IsNamed none = Unit
IsNamed (some id) = id ≢ ""

abbrev pub IsPid : Option ℕ → Type 0
IsPid none = Unit
IsPid (some n) = n < 2 ^ 32

sql_u64-eq : (n : ℕ) (field : String) {z : ℤ} → sql_u64 n field ≡ ok z → z ≡ pos n
unfolding sql_u64
sql_u64-eq n field h = ground arith

if-ok :
    {E A : Type 0} (b : Bool) (x : A) (e : E) {y : A}
    → (if b then ok x else err e) ≡ ok y
    → (b ≡ true) × (x ≡ y)
if-ok b x e h = ground arith

wire_id-named : (label id : String) → id ≢ "" → wire_id label id ≡ ok id
unfolding new_identifier
wire_id-named label id h = ground arith

run-named :
    (label : String) (id : Option String) → IsNamed id → transpose (wire_id label) id ≡ ok id
run-named label none h = refl
run-named label (some id) h = rw (wire_id-named label id h) refl

pid-read : (p : Option ℕ) → IsPid p → transpose wire_pid (pid_column p) ≡ ok p
pid-read none h = refl
pid-read (some n) h = rw (lt→ltb n (2 ^ 32) h) refl

-- The row of an agent gives the agent back, but for the time at which it was made.
decode_agent-row :
    (a : AgentRecord) (old : Option AgentRow)
    → a.agent_id ≢ ""
    → IsNamed a.active_run_id
    → IsPid a.process_id
    → decode_agent a.agent_id (agent_row a old (pos a.created_at_ms) (pos a.updated_at_ms)) ≡ (
        wire_u64 (kept_created old (pos a.created_at_ms)) "agent created_at_ms" >>= λ created.
        ok (record a { created_at_ms = created }))
unfolding decode_agent wire_u64
decode_agent-row a old named run pid =
    rw
      (
        wire_id-named "agent ID" a.agent_id named,
        decode-encode_lifecycle a.lifecycle,
        pid-read a.process_id pid,
        run-named "run ID" a.active_run_id run,
      )
      refl

-- The time at which an agent was made: that of the agent that is there already.
abbrev pub made_at : Option AgentRecord → ℕ → ℕ
made_at none created = created
made_at (some b) created = b.created_at_ms

decode_agent-created :
    (id : AgentId) (row : AgentRow) (b : AgentRecord)
    → decode_agent id row ≡ ok b
    → wire_u64 row.created_at_ms "agent created_at_ms" ≡ ok b.created_at_ms
unfolding decode_agent
decode_agent-created id row b h =
    let (_, _, h1) = >>=-eq-ok (wire_id "agent ID" id) _ h in
    let (_, _, h2) = >>=-eq-ok (decode_lifecycle row.lifecycle row.failure_reason) _ h1 in
    let (_, _, h3) = >>=-eq-ok (transpose wire_pid row.process_id) _ h2 in
    let (_, _, h4) = >>=-eq-ok (transpose (wire_id "run ID") row.active_run_id) _ h3 in
    let (created, e, h5) = >>=-eq-ok (wire_u64 row.created_at_ms "agent created_at_ms") _ h4 in
    let (_, _, h6) = >>=-eq-ok (wire_u64 row.updated_at_ms "agent updated_at_ms") _ h5 in
    e ∙ ap (λ x. ok x.created_at_ms) (ok-injective h6)

module _ {P : Payloads} (o : Outside P) where
  upsert_agent-row :
      (a : AgentRecord) (c d : Db o)
      → upsert_agent o a c ≡ ok d
      → record c {
        agents =
            BTreeMap.insert a.agent_id
              (agent_row a
                (BTreeMap.get a.agent_id c.agents)
                (pos a.created_at_ms)
                (pos a.updated_at_ms))
              c.agents;
      }
        ≡ d
  unfolding upsert_agent
  upsert_agent-row a c d h =
      let (created, e, h') = >>=-eq-ok (sql_u64 a.created_at_ms "agent created_at_ms") _ h in
      let (updated, f, g) = >>=-eq-ok (sql_u64 a.updated_at_ms "agent updated_at_ms") _ h' in
      rw
        (
          sym (sql_u64-eq a.created_at_ms "agent created_at_ms" e),
          sym (sql_u64-eq a.updated_at_ms "agent updated_at_ms" f),
        )
        (ok-injective g)

  agent-written :
      (a : AgentRecord) (c d : Db o)
      → a.agent_id ≢ ""
      → IsNamed a.active_run_id
      → IsPid a.process_id
      → upsert_agent o a c ≡ ok d
      → agent o a.agent_id d ≡ (
          wire_u64
            (kept_created (BTreeMap.get a.agent_id c.agents) (pos a.created_at_ms))
            "agent created_at_ms"
          >>= λ created. ok (some (record a { created_at_ms = created })))
  unfolding upsert_agent agent decode_agent
  agent-written a c d named run pid h =
      rw
        (
          sym (upsert_agent-row a c d h),
          get-insert_same a.agent_id
              (agent_row a (BTreeMap.get a.agent_id c.agents) (pos a.created_at_ms)
                (pos a.updated_at_ms))
              c.agents,
          decode_agent-row a (BTreeMap.get a.agent_id c.agents) named run pid,
        )
        (bind_assoc
          (wire_u64 (kept_created (BTreeMap.get a.agent_id c.agents) (pos a.created_at_ms))
            "agent created_at_ms")
          _ _)

  -- An agent that was written without an error is read back as it was, but for the time at which
  -- it was made, which is that of the agent that the store had before, if it had one that it could
  -- read; the IDs of the agent are not empty, and its process ID has 32 bits.
  pub agent-upsert_agent :
      (a : AgentRecord) (c d : Db o) (old : Option AgentRecord)
      → a.agent_id ≢ ""
      → IsNamed a.active_run_id
      → IsPid a.process_id
      → agent o a.agent_id c ≡ ok old
      → upsert_agent o a c ≡ ok d
      → agent o a.agent_id d ≡ ok (some (record a { created_at_ms = made_at old a.created_at_ms }))
  unfolding agent wire_u64
  agent-upsert_agent a c d old named run pid before h =
      agent-written a c d named run pid h ∙ kept (BTreeMap.get a.agent_id c.agents) before
    where
      kept :
          (found : Option AgentRow)
          → transpose (decode_agent a.agent_id) found ≡ ok old
          → (wire_u64 (kept_created found (pos a.created_at_ms)) "agent created_at_ms"
              >>= λ created. ok (some (record a { created_at_ms = created })))
            ≡ ok (some (record a { created_at_ms = made_at old a.created_at_ms }))
      kept none e = rw (← ok-injective e) refl
      kept (some row) e =
          let (b, read, g) = >>=-eq-ok (decode_agent a.agent_id row) _ e in
          rw (decode_agent-created a.agent_id row b read, ← ok-injective g) refl

  upsert_session-row :
      (s : SessionResumeRecord) (c d : Db o)
      → upsert_session o s c ≡ ok d
      → (contains_key s.agent_id c.agents ≡ true)
        × (record c {
          sessions =
              BTreeMap.insert s.agent_id
                (session_row s (pos s.revision) (pos s.event_sequence) (pos s.updated_at_ms))
                c.sessions;
        }
            ≡ d)
  unfolding upsert_session
  upsert_session-row s c d h =
      let (revision, e, h1) = >>=-eq-ok (sql_u64 s.revision "session revision") _ h in
      let (sequence, f, h2) = >>=-eq-ok (sql_u64 s.event_sequence "session event sequence") _ h1 in
      let (updated, g, h3) = >>=-eq-ok (sql_u64 s.updated_at_ms "session updated_at_ms") _ h2 in
      rw
        (
          sym (sql_u64-eq s.revision "session revision" e),
          sym (sql_u64-eq s.event_sequence "session event sequence" f),
          sym (sql_u64-eq s.updated_at_ms "session updated_at_ms" g),
        )
        (if-ok (contains_key s.agent_id c.agents) _ _ h3)

  -- A session is written without an error only for an agent that the store has, and is then read
  -- back as it was; the agent's ID is not empty.
  pub session-upsert_session :
      (s : SessionResumeRecord) (c d : Db o)
      → s.agent_id ≢ ""
      → upsert_session o s c ≡ ok d
      → (contains_key s.agent_id c.agents ≡ true) × (session o s.agent_id d ≡ ok (some s))
  unfolding session decode_session wire_u64
  session-upsert_session s c d named h =
      let (known, row) = upsert_session-row s c d h in
      (
        known,
        rw
            (
              sym row,
              get-insert_same s.agent_id
                  (session_row s (pos s.revision) (pos s.event_sequence) (pos s.updated_at_ms))
                  c.sessions,
              wire_id-named "agent ID" s.agent_id named,
            )
            refl,
      )
