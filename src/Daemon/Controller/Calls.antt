-- ===== src/Daemon/Controller/Calls.antt =====
-- The steps of the methods of crates/ompd/src/controller.rs.
use omp_remote.Prelude.{ℕ, String, Option, none, some, Result, ok, err, ok_or, map_err}
use omp_remote.Prelude.BTreeMap
use omp_remote.Protocol.Id.{AgentId, RunId}
use omp_remote.Protocol.State.{AgentLifecycle, RunLifecycle, RunSnapshot}
use omp_remote.Protocol.Frame.Types.{Payloads}
use omp_remote.Plane.Actor.Types.{AgentError, Clock}
use omp_remote.Plane.Registry
use omp_remote.Plane.Registry.{AgentRegistry, AgentHandle, RegistryError}
use omp_remote.Plane.Handle
use omp_remote.Plane.Handle.{Asks}
use omp_remote.Daemon.Store.Types.{Outside, StoreError}
use omp_remote.Daemon.Store.Operations.Ops.{Db}
use omp_remote.Daemon.Controller.Action.{Action, ◌>>=◌, ◌>>◌, pure, lift, gets, attempt, modify}
use omp_remote.Daemon.Controller.Types.{
  ControllerError, Tasks, World, not_found, not_running, control_plane, persistence,
}
use omp_remote.Daemon.Controller.Records.{save_agent, process_id_of}

module _ {P : Payloads} {o : Outside P} (d : Tasks o) where
  abbrev pub Shared : Type 0
  Shared = World o d.mpsc d.system

  abbrev pub Does : Type 0 → Type 0
  Does A = Action Shared ControllerError A

  -- An `.await`.
  unfoldable pub wait : Does (Unit {0})
  wait = modify d.elsewhere

  unfoldable pub unix_time_ms : Does ℕ
  unix_time_ms = gets (λ w. d.system.unix_time_ms w.system)

  unfoldable pub new_run_id : Does RunId
  new_run_id w =
      let (id, system) = d.system.new_run_id w.system in (ok id, record w { system = system })

  -- A method of the runtime with this number, or of `OmpRuntime` itself.
  unfoldable pub on_system :
      {A : Type 0} → (d.system.State → Result String A × d.system.State) → Does A
  on_system call w =
      let (r, system) = call w.system in
      (map_err ControllerError.runtime r, record w { system = system })

  unfoldable pub runtime_process_id : ℕ → Does (Option ℕ)
  runtime_process_id runtime = gets (λ w. process_id_of (d.system.status runtime w.system))

  -- A method of an agent's handle.
  unfoldable pub on_agent :
      {A : Type 0}
      → (Clock → AgentRegistry d.mpsc → Result AgentError A × AgentRegistry d.mpsc)
      → Does A
  on_agent call w =
      let (r, registry) = call (d.system.clock w.system) w.registry in
      (map_err (λ e. control_plane (d.system.actor_text e)) r, record w { registry = registry })

  unfoldable pub on_registry :
      {A : Type 0} → (AgentRegistry d.mpsc → Result RegistryError A × AgentRegistry d.mpsc) → Does A
  on_registry call w =
      let (r, registry) = call w.registry in
      (map_err (λ e. control_plane (d.system.registry_text e)) r, record w { registry = registry })

  abbrev pub stored : {A : Type 0} → Result StoreError A → Result ControllerError A
  stored r = map_err (λ e. persistence (d.system.store_text e)) r

  -- `store.lock()` with a call that changes the store.
  unfoldable pub on_store : {A : Type 0} → (Db o → Result StoreError A × Db o) → Does A
  on_store call w = let (r, store) = call w.store in (stored r, record w { store = store })

  unfoldable pub replace_store : Result StoreError (Db o) → Does (Unit {0})
  replace_store (ok store) w = (ok tt, record w { store = store })
  replace_store (err e) w = (err (persistence (d.system.store_text e)), w)

  unfoldable pub set_lifecycle : AgentHandle → AgentLifecycle → Does (Unit {0})
  set_lifecycle h lifecycle =
      wait >> on_agent (λ clock. Handle.set_lifecycle d.mpsc clock h lifecycle)

  unfoldable pub agent : AgentId → Does AgentHandle
  agent agent_id = gets (λ w. Registry.get d.mpsc agent_id w.registry) >>= λ found.
      lift (ok_or found (not_found agent_id))

  -- `runtime`, which waits for the lock.
  unfoldable pub runtime : AgentId → Does ℕ
  runtime agent_id = wait >> gets (λ w. BTreeMap.get agent_id w.runtimes) >>= λ found.
      lift (ok_or found (not_running agent_id))

  unfoldable pub persist_snapshot : AgentHandle → Option ℕ → Option RunId → Does (Unit {0})
  persist_snapshot h process_id active_run_id = do
    now_ms ← unix_time_ms
    wait
    snapshot ← on_agent (λ clock. Handle.snapshot d.mpsc clock h)
    store ← gets (λ w. w.store)
    replace_store (save_agent o h.agent_id snapshot.lifecycle process_id active_run_id now_ms store)

  -- The active run, if there is one, ends; without a snapshot nothing happens.
  unfoldable pub end_run : AgentHandle → RunLifecycle → ℕ → Option RunSnapshot → Does (Unit {0})
  end_run h lifecycle now_ms none = pure tt
  end_run h lifecycle now_ms (some run) =
      wait
      >> on_agent (λ clock.
        Handle.upsert_run d.mpsc clock h
          (record run { lifecycle = lifecycle; ended_at_ms = some now_ms }))

  unfoldable pub end_active_run : AgentHandle → RunLifecycle → Does (Unit {0})
  end_active_run h lifecycle = do
    wait
    snapshot ← on_agent (λ clock. Handle.snapshot d.mpsc clock h)
    now_ms ← unix_time_ms
    end_run h lifecycle now_ms snapshot.active_run

  unfoldable pub complete_active_run : AgentHandle → Does (Unit {0})
  complete_active_run h = attempt (end_active_run h RunLifecycle.completed)

  unfoldable pub fail_active_run : AgentHandle → String → Does (Unit {0})
  fail_active_run h reason = do
    attempt (end_active_run h (RunLifecycle.failed reason))
    attempt (set_lifecycle h AgentLifecycle.idle)
    attempt (persist_snapshot h none none)
