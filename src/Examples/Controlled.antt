-- ===== src/Examples/Controlled.antt =====
-- Runs of the controller of crates/ompd.
use omp_remote.Prelude.{
  ℕ, suc, none, some, [], ◌∷◌, ok, err, ◌≡◌, refl, Option, String_discrete, ℕ_discrete, checked_add,
}
use omp_remote.Prelude.BTreeMap.{get, insert}
use omp_remote.Prelude.NumMap
use omp_remote.Protocol.State.{
  would_change, apply_change, apply_delta, AgentSnapshot_discrete, initial, AgentLifecycle,
  unclaimed,
}
use omp_remote.Protocol.Frame.Types.{launch_agent, prompt}
use omp_remote.Plane.Mpsc.{queue}
use omp_remote.Plane.Actor.Log.{record_update}
use omp_remote.Plane.Actor.Loop.{spawned}
use omp_remote.Plane.Registry.{AgentRegistry, restore}
use omp_remote.Plane.Handle.{ask}
use omp_remote.Runtime.Types.{RuntimeStatus, Response, SuccessResponse}
use omp_remote.Daemon.Store.Types.{SessionResumeRecord}
use omp_remote.Daemon.Store.Columns.{encode_lifecycle}
use omp_remote.Daemon.Store.Agents.{session}
use omp_remote.Daemon.Controller.Action.{◌>>=◌}
use omp_remote.Daemon.Controller.Types.{
  System, Channels, World, Tasks, interaction_lease_required, state,
}
use omp_remote.Daemon.Controller.Records.{save_agent, resumed}
use omp_remote.Daemon.Controller.Calls
use omp_remote.Daemon.Controller.Calls.{
  wait, on_agent, Shared, runtime, new_run_id, unix_time_ms, set_lifecycle, runtime_process_id,
  persist_snapshot, replace_store,
}
use omp_remote.Daemon.Controller.Lifecycle.{new}
use omp_remote.Daemon.Controller.Execute.{snapshot_of, send_ui_response, start_run}
use omp_remote.Daemon.Controller.Alive.{AllAlive}
use omp_remote.Daemon.Controller.Alive.Works.{works, request, finish, works-AllAlive}
use omp_remote.Daemon.Controller.Lease.{IsLeasedTo, ui_response_refused}
use omp_remote.Plane.Actor.Types.{ActorState}
use omp_remote.Daemon.Controller.Resumed.Continued.{IsIdle, Continues}
use omp_remote.Daemon.Controller.Resumed.{IsFresh, Has, new-resumed}
use omp_remote.Examples.Data.{payloads, outside, db, worker, worker_session, worker_session_db}

abbrev agent_channels : Channels payloads
agent_channels = queue

-- A system whose runtimes refuse every prompt. Its state is the time, and the next runtime's number.
abbrev system : System payloads
system = record {
  State = ℕ;
  spawn = λ config n. (ok n, suc n);
  status = λ runtime n. RuntimeStatus.running 4711;
  request = λ runtime kind n. (
    ok (
        Response.success none (
          SuccessResponse.other (
            state (record {
              session_id = "s";
              session_file = none;
              session_name = none;
              message_count = 0;
            })))),
    n,
  );
  prompt = λ runtime message images streaming n. (ok (Response.error none "prompt" "busy" none), n);
  send = λ runtime message n. (ok tt, n);
  shutdown = λ runtime n. (ok tt, n);
  unix_time_ms = λ n. n;
  clock = λ n. record { instant = n; last_instant = 1000 };
  new_run_id = λ n. ("run", n);
  actor_text = λ e. "actor";
  registry_text = λ e. "registry";
  store_text = λ e. "store";
  exit_text = λ code. "exited";
}

-- No other task runs.
abbrev quiet : Tasks outside
quiet = record { mpsc = agent_channels; system = system; elsewhere = λ w. w }

abbrev empty_registry : AgentRegistry agent_channels
empty_registry = record {
  config = record { replay_capacity = 4; subscriber_capacity = 2 };
  agents = [];
  tasks = [];
  next_task = 0;
}

abbrev idle : Shared quiet
idle = record {
  registry = empty_registry;
  runtimes = [];
  runtime_config = [];
  store = db;
  system = 5;
  bridges = [];
}

idle-AllAlive : AllAlive quiet idle
unfolding get
idle-AllAlive id h g = cc

works_example : AllAlive quiet (
    works quiet
      (request (launch_agent "a") ∷ request (prompt "a" "hello" [] none) ∷ finish ∷ [])
      idle)
works_example =
    works-AllAlive quiet (λ w a. a)
      (request (launch_agent "a") ∷ request (prompt "a" "hello" [] none) ∷ finish ∷ []) idle
      idle-AllAlive

-- One agent, whose interaction nobody holds.
abbrev one_agent : Shared quiet
one_agent = record idle {
  registry = record empty_registry {
    agents = ("a", record { agent_id = "a"; command_tx = 0 }) ∷ [];
    tasks = (0, spawned agent_channels (initial "a") empty_registry.config) ∷ [];
    next_task = 1;
  };
}

nobody_holds : ¬ IsLeasedTo unclaimed "alice" 5
nobody_holds (lease, e, same, later) = cc

ui_response_example :
    send_ui_response quiet "a" "alice" 3 one_agent ≡ (err interaction_lease_required, one_agent)
unfolding snapshot_of get String_discrete ◌>>=◌ wait on_agent ask NumMap.get NumMap.insert
ui_response_example =
    ui_response_refused quiet "a" "alice" 3 one_agent one_agent
      (record { agent_id = "a"; command_tx = 0 }) (initial "a") refl refl nobody_holds

abbrev resumed_registry : AgentRegistry agent_channels
resumed_registry = record empty_registry {
  agents = ("worker", record { agent_id = "worker"; command_tx = 0 }) ∷ [];
  tasks =
      (0, spawned agent_channels (resumed worker (some worker_session)) empty_registry.config) ∷ [];
  next_task = 1;
}

abbrev resumed_world : World outside agent_channels system
resumed_world = record {
  registry = resumed_registry;
  runtimes = [];
  runtime_config = [];
  store = worker_session_db;
  system = 5;
  bridges = [];
}

resumed_example :
    (s : Option SessionResumeRecord) × (st : ActorState agent_channels) × (session outside "worker"
        worker_session_db
      ≡ ok s)
    × Has agent_channels resumed_registry "worker" st
    × IsFresh agent_channels empty_registry.config st
    × IsIdle worker st.snapshot
    × Continues s st.snapshot
unfolding new get encode_lifecycle restore insert NumMap.insert
resumed_example =
    new-resumed outside agent_channels system empty_registry resumed_registry [] worker_session_db 5
      resumed_world worker refl refl

-- The agent's runtime is there, and refuses prompts.
abbrev busy_agent : Shared quiet
busy_agent = record one_agent { runtimes = ("a", 0) ∷ [] }

abbrev prompted : Shared quiet
prompted = (start_run quiet "a" busy_agent).1

abbrev lifecycle_of : Shared quiet → Option AgentLifecycle
lifecycle_of w = elim (NumMap.get 0 w.registry.tasks) [
  | none ↦ none
  | some st ↦ some st.snapshot.lifecycle
]

left_running : lifecycle_of prompted ≡ some AgentLifecycle.running
unfolding start_run ◌>>=◌ runtime wait get String_discrete Calls.agent new_run_id unix_time_ms
    on_agent ask NumMap.get would_change AgentSnapshot_discrete apply_change ℕ_discrete checked_add
    apply_delta set_lifecycle NumMap.insert record_update runtime_process_id persist_snapshot
    replace_store save_agent
left_running = refl
