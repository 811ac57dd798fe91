-- ===== src/Daemon/Controller/Lifecycle.antt =====
-- `new`, `launch`, `stop` and `shutdown` of crates/ompd/src/controller.rs.
use omp_remote.Prelude.{
  ℕ, Bool, false, String, Option, none, some, List, [], ◌∷◌, ◌++◌, Result, ok, err, ok_or,
}
use omp_remote.Prelude.BTreeMap
use omp_remote.Prelude.BTreeMap.{BTreeMap}
use omp_remote.Protocol.Id.{AgentId}
use omp_remote.Protocol.State.{AgentSnapshot, AgentLifecycle, SessionSummary}
use omp_remote.Protocol.Frame.Types.{Payloads}
use omp_remote.Plane.Registry
use omp_remote.Plane.Registry.{AgentRegistry, AgentHandle, RegistryError}
use omp_remote.Plane.Handle
use omp_remote.Runtime.Types.{Response, SuccessResponse, CommandKind}
use omp_remote.Daemon.Store.Types.{Outside}
use omp_remote.Daemon.Store.Operations.Ops.{Db}
use omp_remote.Daemon.Controller.Action.{◌>>=◌, ◌>>◌, pure, gets, modify, raise_if}
use omp_remote.Daemon.Controller.Types.{
  ControllerError, Body, System, Channels, Tasks, World, RuntimeConfig, SessionState,
  already_running, not_running, control_plane, persistence, get_state, state,
}
use omp_remote.Daemon.Controller.Records.{is_running, recovered}
use omp_remote.Daemon.Controller.Calls.{
  Does, Shared, wait, on_system, on_agent, on_registry, set_lifecycle, agent, persist_snapshot,
  runtime_process_id,
}

module _ {P : Payloads} (o : Outside P) (mpsc : Channels P) (x : System P) where
  unfoldable pub restore_all :
      List AgentSnapshot → AgentRegistry mpsc → Result RegistryError (Unit {0}) × AgentRegistry mpsc
  restore_all [] r = (ok tt, r)
  restore_all (s ∷ rest) r =
      let (restored, r') = Registry.restore mpsc s r in
      let later = restore_all rest r' in elim restored [ err e ↦ (err e, r') | ok h ↦ later ]

  abbrev pub start :
      RuntimeConfig
      → Db o
      → x.State
      → Result RegistryError (Unit {0}) × AgentRegistry mpsc
      → Result ControllerError (World o mpsc x) × AgentRegistry mpsc
  start config store system (err e, r) = (err (control_plane (x.registry_text e)), r)
  start config store system (ok _, r) = (
    ok (record {
      registry = r;
      runtimes = [];
      runtime_config = config;
      store = store;
      system = system;
      bridges = [];
    }),
    r,
  )

  -- `DaemonController::new`, on the shared registry.
  unfoldable pub new :
      AgentRegistry mpsc
      → RuntimeConfig
      → Db o
      → x.State
      → Result ControllerError (World o mpsc x) × AgentRegistry mpsc
  unfolding restore_all recovered
  new r config store system = elim (recovered o store) [
    | err e ↦ (err (persistence (x.store_text e)), r)
    | ok snapshots ↦ start config store system (restore_all snapshots r)
  ]

module _ {P : Payloads} {o : Outside P} (d : Tasks o) where
  -- The agent of the registry, which makes one where there is none.
  unfoldable pub get_or_create : AgentId → Does d AgentHandle
  get_or_create agent_id w = elim (Registry.get d.mpsc agent_id w.registry) [
    | some h ↦ (ok h, w)
    | none ↦ on_registry d (Registry.create d.mpsc agent_id) w
  ]

  -- Whether a runtime of the agent runs.
  abbrev pub runs : AgentId → Shared d → Bool
  runs agent_id w = elim (BTreeMap.get agent_id w.runtimes) [
    | none ↦ false
    | some runtime ↦ is_running (d.system.status runtime w.system)
  ]

  abbrev pub session_of : SessionState → SessionSummary
  session_of data' = record {
    session_id = data'.session_id;
    session_file = data'.session_file;
    name = data'.session_name;
    message_count = data'.message_count;
  }

  -- What is done with the answer to `GetState`.
  unfoldable pub take_state : AgentHandle → Result String (Response (Body P)) → Does d (Unit {0})
  take_state h (ok (Response.success id (SuccessResponse.other (state data')))) =
      wait d >> on_agent d (λ clock. Handle.set_session d.mpsc clock h (session_of data'))
  take_state h _ = pure tt

  unfoldable pub load_session : AgentHandle → ℕ → Does d (Unit {0})
  load_session h runtime w =
      let w' = d.elsewhere w in
      let (answer, system) = d.system.request runtime (CommandKind.other get_state) w'.system in
      take_state h answer (record w' { system = system })

  abbrev pub forget_runtime : AgentId → Shared d → Shared d
  forget_runtime agent_id w = record w { runtimes = BTreeMap.remove agent_id w.runtimes }

  -- The runtime is kept, and a task takes its events.
  abbrev pub keep_runtime : AgentHandle → AgentId → ℕ → Option ℕ → Shared d → Shared d
  keep_runtime h agent_id runtime process_id w = record w {
    runtimes = BTreeMap.insert agent_id runtime w.runtimes;
    bridges = w.bridges ++ record { agent = h; runtime = runtime; process_id = process_id } ∷ [];
  }

  unfoldable pub launch : AgentId → RuntimeConfig → Does d (Unit {0})
  launch agent_id config = do
    wait d
    running ← gets (runs agent_id)
    raise_if running (already_running agent_id)
    modify (forget_runtime agent_id)
    wait d
    runtime ← on_system d (d.system.spawn config)
    h ← get_or_create agent_id
    set_lifecycle d h AgentLifecycle.idle
    load_session h runtime
    process_id ← runtime_process_id d runtime
    persist_snapshot d h process_id none
    modify (keep_runtime h agent_id runtime process_id)

  -- The runtime, which leaves the table.
  unfoldable pub take_runtime : AgentId → Does d ℕ
  take_runtime agent_id w =
      let w' = d.elsewhere w in
      (ok_or (BTreeMap.get agent_id w'.runtimes) (not_running agent_id), forget_runtime agent_id w')

  unfoldable pub stop : AgentId → Does d (Unit {0})
  stop agent_id = do
    runtime ← take_runtime agent_id
    h ← agent d agent_id
    set_lifecycle d h AgentLifecycle.stopping
    wait d
    on_system d (d.system.shutdown runtime)
    set_lifecycle d h AgentLifecycle.stopped
    persist_snapshot d h none none
    wait d
    on_registry d (Registry.remove d.mpsc agent_id)

  -- The first of two errors.
  abbrev pub first_of :
      {A : Type 0} → Option ControllerError → Result ControllerError A → Option ControllerError
  first_of (some e) r = some e
  first_of none (ok a) = none
  first_of none (err e) = some e

  abbrev pub lifecycle_after : Result ControllerError (Unit {0}) → AgentLifecycle
  lifecycle_after (ok _) = AgentLifecycle.stopped
  lifecycle_after (err (ControllerError.runtime message)) = AgentLifecycle.failed message
  lifecycle_after (err e) = AgentLifecycle.stopped

  -- One round of the loop of `shutdown`.
  unfoldable pub shutdown_agent :
      AgentHandle → ℕ → Option ControllerError → Shared d → Option ControllerError × Shared d
  shutdown_agent h runtime first w =
      let (_, w1) = set_lifecycle d h AgentLifecycle.stopping w in
      let (stopped, w2) = on_system d (d.system.shutdown runtime) (d.elsewhere w1) in
      let (_, w3) = set_lifecycle d h (lifecycle_after stopped) w2 in
      let (persisted, w4) = persist_snapshot d h none none w3 in
      (first_of (first_of first stopped) persisted, w4)

  unfoldable pub shutdown_all :
      BTreeMap ℕ → Option ControllerError → Shared d → Option ControllerError × Shared d
  shutdown_all [] first w = (first, w)
  shutdown_all ((agent_id, runtime) ∷ rest) first w =
      elim (Registry.get d.mpsc agent_id w.registry) [
        | none ↦ shutdown_all rest first w
        | some h ↦
            let (first', w') = shutdown_agent h runtime first w in shutdown_all rest first' w'
      ]

  abbrev pub first_error :
      Option ControllerError × Shared d → Result ControllerError (Unit {0}) × Shared d
  first_error (none, w) = (ok tt, w)
  first_error (some e, w) = (err e, w)

  unfoldable pub shutdown : Does d (Unit {0})
  shutdown w =
      let w' = d.elsewhere w in
      first_error (shutdown_all w'.runtimes none (record w' { runtimes = [] }))
