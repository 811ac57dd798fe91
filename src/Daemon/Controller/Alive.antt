-- ===== src/Daemon/Controller/Alive.antt =====
-- The agents' tasks behind the controller of crates/ompd/src/controller.rs, whatever it executes.
pub mod Requests
pub mod Works
use omp_remote.Prelude.{
  ◌≡◌, refl, ℕ, String, Option, none, some, Result, ok, err, arith, inl, inr, Option-cases, Bool,
  true, false, List, [], ◌∷◌,
}
use omp_remote.Prelude.BTreeMap
use omp_remote.Protocol.Id.{AgentId, RunId}
use omp_remote.Protocol.State.{AgentStateChange, AgentLifecycle, RunLifecycle, RunSnapshot, initial}
use omp_remote.Protocol.Frame.Types.{Payloads, ControlRequest}
use omp_remote.Plane.Actor.Types.{Clock, ActorCommand, AgentError, Reply}
use omp_remote.Plane.Registry
use omp_remote.Plane.Registry.{AgentHandle, AgentRegistry, RegistryError}
use omp_remote.Plane.Registry.Alive.{IsAlive, perform_all-IsAlive, create_call, remove_call}
use omp_remote.Plane.Handle
use omp_remote.Plane.Handle.{ask}
use omp_remote.Plane.Handle.Alive.{ask-IsAlive}
use omp_remote.Daemon.Store.Types.{Outside, StoreError}
use omp_remote.Daemon.Store.Operations.Ops.{Db}
use omp_remote.Daemon.Controller.Preserved.{
  Preserves, steps, Preserves-modify, Preserves-bind, Preserves-attempt,
}
use omp_remote.Daemon.Controller.Action.{◌>>=◌, ◌>>◌, pure, attempt}
use omp_remote.Daemon.Controller.Types.{Tasks, World, ControllerError, RuntimeConfig, Bridge}
use omp_remote.Daemon.Controller.Calls.{
  Does, Shared, wait, unix_time_ms, new_run_id, on_system, runtime_process_id, on_agent,
  on_registry, on_store, replace_store, set_lifecycle, agent, runtime, persist_snapshot, end_run,
  end_active_run, complete_active_run, fail_active_run,
}

module _ {P : Payloads} {o : Outside P} (d : Tasks o) where
  -- Each handle of the registry has a running task of its own, with that agent's state.
  abbrev pub AllAlive : Shared d → Type 0
  AllAlive w = IsAlive d.mpsc w.registry

  -- What other tasks do leaves the agents alive.
  abbrev pub IsGentle : Type 0
  IsGentle = (w : Shared d) → AllAlive w → AllAlive (d.elsewhere w)

  module _ (gentle : IsGentle) where
    pub wait_alive : Preserves AllAlive (wait d)
    unfolding wait
    wait_alive = Preserves-modify d.elsewhere gentle

    pub system_alive :
        {A : Type 0} (call : d.system.State → Result String A × d.system.State)
        → Preserves AllAlive (on_system d call)
    unfolding on_system
    system_alive call = record { after = λ w h. h }

    pub agent_alive :
        {A : Type 0} (h : AgentHandle) (read : Reply _ → Result AgentError A) (c : ActorCommand _)
        → Preserves AllAlive (on_agent d (λ clock. ask d.mpsc clock h read c))
    unfolding on_agent
    agent_alive h read c = record {
      after = λ w a. ask-IsAlive d.mpsc (d.system.clock w.system) h read c w.registry a;
    }

    replace_store_alive : (r : Result StoreError (Db o)) → Preserves AllAlive (replace_store d r)
    unfolding replace_store
    replace_store_alive (ok store) = record { after = λ w a. a }
    replace_store_alive (err e) = record { after = λ w a. a }

    pub store_alive :
        {A : Type 0} (call : Db o → Result StoreError A × Db o)
        → Preserves AllAlive (on_store d call)
    unfolding on_store
    store_alive call = record { after = λ w a. a }

    pub run_id_alive : Preserves AllAlive (new_run_id d)
    unfolding new_run_id
    run_id_alive = record { after = λ w a. a }

    pub lifecycle_alive :
        (h : AgentHandle) (lifecycle : AgentLifecycle)
        → Preserves AllAlive (set_lifecycle d h lifecycle)
    unfolding set_lifecycle
    lifecycle_alive h lifecycle = search (steps, wait_alive, agent_alive)

    pub persist_alive :
        (h : AgentHandle) (process_id : Option ℕ) (run_id : Option RunId)
        → Preserves AllAlive (persist_snapshot d h process_id run_id)
    unfolding persist_snapshot unix_time_ms
    persist_alive h process_id run_id = search (steps, wait_alive, agent_alive, replace_store_alive)

    pub lookup_alive : (agent_id : AgentId) → Preserves AllAlive (agent d agent_id)
    unfolding agent
    lookup_alive agent_id = search steps

    pub runtime_alive : (agent_id : AgentId) → Preserves AllAlive (runtime d agent_id)
    unfolding runtime
    runtime_alive agent_id = search (steps, wait_alive)

    pub end_run_alive :
        (h : AgentHandle) (lifecycle : RunLifecycle) (now_ms : ℕ) (run : Option RunSnapshot)
        → Preserves AllAlive (end_run d h lifecycle now_ms run)
    unfolding end_run
    end_run_alive h lifecycle now_ms none = search steps
    end_run_alive h lifecycle now_ms (some run) = search (steps, wait_alive, agent_alive)

    pub end_active_run_alive :
        (h : AgentHandle) (lifecycle : RunLifecycle)
        → Preserves AllAlive (end_active_run d h lifecycle)
    unfolding end_active_run unix_time_ms
    end_active_run_alive h lifecycle = search (steps, wait_alive, agent_alive, end_run_alive)

    pub complete_alive : (h : AgentHandle) → Preserves AllAlive (complete_active_run d h)
    unfolding complete_active_run
    complete_alive h = search (steps, end_active_run_alive)

    pub fail_alive :
        (h : AgentHandle) (reason : String) → Preserves AllAlive (fail_active_run d h reason)
    unfolding fail_active_run
    fail_alive h reason = search (steps, end_active_run_alive, lifecycle_alive, persist_alive)
