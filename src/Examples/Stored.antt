-- ===== src/Examples/Stored.antt =====
-- Runs of the store and of the requests.
use omp_remote.Prelude.{
  pos, ◌+◌, length, some, ◌≡◌, ◌≢◌, String, ap, ◌≤◌, refl, true, false, none, [], ◌∷◌, ok, arith,
  String_discrete, is_some, subst, ok-injective,
}
use mathlib.Core.Logic.{ite}
use omp_remote.Prelude.BTreeMap
use omp_remote.Prelude.BTreeMap.{contains_key}
use omp_remote.Protocol.Frame.Types.{ResponseOutcome, success, accepted, cli}
use omp_remote.Protocol.Frame.Checks.{validate, is_mutating}
use omp_remote.Daemon.Store.Types.{OperationClaim}
use omp_remote.Daemon.Store.Columns.{sql_u64, wire_u64}
use omp_remote.Daemon.Store.Operations.Table.{find}
use omp_remote.Daemon.Store.Operations.Ops.{
  Db, claim_params, claim_operation, complete_operation, recover_operations, complete_params,
  claim_row,
}
use omp_remote.Daemon.Store.Operations.Once.{claim, restart, executions, executions-le-one}
use omp_remote.Daemon.Store.Operations.Prune.{prune_operations}
use omp_remote.Daemon.Store.Operations.Delete.{delete, count}
use omp_remote.Daemon.Store.Operations.Prune.{prune_operations_exact}
use omp_remote.Daemon.Store.Operations.Outcome.{claim_again_completed}
use omp_remote.Daemon.Store.Devices.Ops.{revoke_device, revoke_row, authenticate_device}
use omp_remote.Daemon.Store.Access.{authenticate_call, consume_call, exchange_call, after_accesses}
use omp_remote.Daemon.Store.Access.Revocation.{is_refused, revocation_lasts}
use omp_remote.Daemon.Store.Access.Single.{redemptions, redemptions-le-one}
use omp_remote.Daemon.Store.Opening.{Database, initialize, migrate, load_or_create_server_id}
use omp_remote.Daemon.Store.Opening.{initialize_again}
use omp_remote.Daemon.Store.Recovery.{
  recover_agents, recover_interrupted, IsAtRest, IsNotPending, recover_interrupted_settled,
}
use omp_remote.Protocol.Id.{new_identifier}
use omp_remote.Daemon.Store.Columns.{decode_lifecycle}
use omp_remote.Daemon.Store.Agents.{decode_agent, upsert_agent, agent, upsert_session, session}
use omp_remote.Daemon.Store.Agents.Readback.{agent-upsert_agent, session-upsert_session}
use omp_remote.Daemon.Requests.{authorized, execute_request}
use omp_remote.Daemon.Requests.Guards.{retry_same_response}
use omp_remote.Examples.Data.{
  outside, db, key, hello_prompt, envelope, context, later_context, laptop, worker, worker_db,
  worker_session, worker_session_db, laptop_operation, busy_db,
}

once_example :
    executions outside key
      (claim key hello_prompt 10
        ∷ claim key hello_prompt 11
        ∷ restart
        ∷ claim key hello_prompt 12
        ∷ [])
      db
    ≤ 1
unfolding find
once_example =
    executions-le-one outside key
      (claim key hello_prompt 10
        ∷ claim key hello_prompt 11
        ∷ restart
        ∷ claim key hello_prompt 12
        ∷ [])
      db

redeemed_example :
    redemptions outside "phone"
      (consume_call "phone" "secret" 20
        ∷ exchange_call "server" "phone" "token" "phone" "secret"
            (record { name = "phone"; platform = cli })
            21
        ∷ [])
      db
    ≤ 1
unfolding BTreeMap.get String_discrete
redeemed_example =
    redemptions-le-one outside "phone"
      (consume_call "phone" "secret" 20
        ∷ exchange_call "server" "phone" "token" "phone" "secret"
            (record { name = "phone"; platform = cli }) 21
        ∷ [])
      db

laptop_known : is_some (BTreeMap.get "laptop" db.devices) ≡ true
unfolding BTreeMap.get String_discrete
laptop_known = refl

laptop_revoked : (revoke_device outside "laptop" 20 db).0 ≡ ok true
unfolding BTreeMap.get String_discrete revoke_device revoke_row sql_u64
laptop_revoked = refl

revoked_example :
    (is_refused outside
        (authenticate_device outside "laptop" "token" 40 (
          after_accesses outside
            (authenticate_call "laptop" "token" 30 ∷ [])
            (revoke_device outside "laptop" 20 db).1)).0
      ≡ true)
    × ((authenticate_device outside "laptop" "token" 40 (
          after_accesses outside
            (authenticate_call "laptop" "token" 30 ∷ [])
            (revoke_device outside "laptop" 20 db).1)).1
        ≡ after_accesses outside
            (authenticate_call "laptop" "token" 30 ∷ [])
            (revoke_device outside "laptop" 20 db).1)
revoked_example =
    revocation_lasts outside "laptop" 20 db true (authenticate_call "laptop" "token" 30 ∷ [])
      "token" 40 laptop_known laptop_revoked

abbrev claimed_db : Db outside
claimed_db = (claim_operation outside key hello_prompt 10 db).1

first_claim : (claim_operation outside key hello_prompt 10 db).0 ≡ ok OperationClaim.execute
unfolding claim_operation claim_params claim_row sql_u64 find BTreeMap.get String_discrete
first_claim = refl

completes : (complete_operation outside key (success accepted) 11 claimed_db).0 ≡ ok tt
unfolding complete_operation complete_params claim_operation claim_params claim_row sql_u64 find
    BTreeMap.get String_discrete
completes = refl

-- The store after a crash: an agent runs and an operation is pending.
abbrev crashed : Db outside
crashed = record claimed_db {
  agents =
      (
        "agent",
        record {
          lifecycle = "running";
          failure_reason = none;
          process_id = some (pos 3);
          active_run_id = some "run";
          created_at_ms = pos 5;
          updated_at_ms = pos 6;
        },
      )
      ∷ [];
}

abbrev recovered : Db outside
recovered =
    recover_operations outside (record crashed { agents = recover_agents (pos 50) crashed.agents })

crash_recovered : recover_interrupted outside 50 crashed ≡ ok recovered
unfolding recover_interrupted sql_u64
crash_recovered = refl

recovery_example :
    IsAtRest (BTreeMap.get "agent" crashed.agents) (BTreeMap.get "agent" recovered.agents)
    × IsNotPending outside (find key crashed.operations) (find key recovered.operations)
recovery_example =
    recover_interrupted_settled outside 50 crashed recovered "agent" key crash_recovered

codec :
    (x : ResponseOutcome) (b : outside.Blob)
    → outside.encode_outcome x ≡ ok b
    → outside.decode_outcome b ≡ ok x
codec x b h = subst (λ b. outside.decode_outcome b ≡ ok x) (ok-injective h) refl

completed_example :
    claim_operation outside key hello_prompt 12
      (complete_operation outside key (success accepted) 11 claimed_db).1
    ≡ (
      ok (OperationClaim.completed (success accepted)),
      (complete_operation outside key (success accepted) 11 claimed_db).1,
    )
completed_example =
    claim_again_completed outside key hello_prompt 10 db first_claim codec (success accepted) 11 12
      claimed_db (omega arith) refl completes

valid : validate envelope ≡ ok tt
unfolding validate is_mutating
valid = refl

allowed : authorized laptop.scopes envelope.request ≡ true
unfolding authorized
allowed = refl

retry_example :
    execute_request outside later_context laptop envelope
      (execute_request outside context laptop envelope (db, 0)).1
    ≡ execute_request outside context laptop envelope (db, 0)
retry_example =
    retry_same_response outside context later_context laptop envelope "op" db 0 valid allowed refl
      first_claim codec (omega arith) refl completes

worker_named : ◌≢◌ {A = String} "worker" ""
unfolding String_discrete
worker_named e = cc (ap (λ (s : String). ite (String_discrete s "worker") true false) e)

-- The worker is written again, as if it was made later.
agent_example : agent outside "worker" worker_db ≡ ok (some worker)
unfolding agent upsert_agent wire_u64 BTreeMap.insert BTreeMap.get decode_agent decode_lifecycle
    new_identifier String_discrete
agent_example =
    agent-upsert_agent outside (record worker { created_at_ms = 99 }) worker_db worker_db
      (some worker) worker_named tt (omega arith) refl refl

session_example :
    (contains_key "worker" worker_db.agents ≡ true)
    × (session outside "worker" worker_session_db ≡ ok (some worker_session))
unfolding upsert_session BTreeMap.get String_discrete BTreeMap.insert
session_example =
    session-upsert_session outside worker_session worker_db worker_session_db worker_named refl

phone_differs : ◌≢◌ {A = String} "phone" "laptop"
unfolding String_discrete
phone_differs e = cc (ap (λ (s : String). ite (String_discrete s "phone") true false) e)

-- The old operation of the laptop goes; the later one stays, and so does that of the phone.
pruned_example :
    (find key (prune_operations outside "laptop" 10 1 busy_db).1.operations
      ≡ some (laptop_operation 50))
    × (1 + length (prune_operations outside "laptop" 10 1 busy_db).1.operations ≡ 3)
unfolding prune_operations delete count find String_discrete
pruned_example =
    prune_operations_exact outside "laptop" 10 1 1 busy_db key (refl, (refl, (refl, tt))) refl

abbrev new_file : Database outside
new_file = record { user_version = pos 0; metadata_server_id = none; tables = db }

made_not_empty : ◌≢◌ {A = String} "made" ""
unfolding String_discrete
made_not_empty e = cc (ap (λ (s : String). ite (String_discrete s "made") true false) e)

opened_again_example :
    (initialize outside 20 "other" (initialize outside 10 "made" new_file).1).0 ≡ ok "made"
unfolding initialize migrate load_or_create_server_id recover_interrupted sql_u64
opened_again_example =
    initialize_again outside 10 20 "made" "other" "made" new_file made_not_empty (omega arith) refl
