-- ===== src/Daemon/Controller/Alive/Requests.antt =====
-- The agents' tasks after the requests and the events that crates/ompd/src/controller.rs handles.
use omp_remote.Prelude.{
  ℕ, String, Option, none, some, Result, ok, err, inl, inr, Option-cases, Result-cases, List, [],
  ◌∷◌,
}
use omp_remote.Protocol.Id.{AgentId, RunId, LeaseHolderId}
use omp_remote.Protocol.State.{RunSnapshot}
use omp_remote.Protocol.Frame.Types.{Payloads}
use omp_remote.Plane.Registry
use omp_remote.Plane.Registry.{AgentHandle}
use omp_remote.Plane.Registry.Alive.{perform_all-IsAlive, create_call, remove_call}
use omp_remote.Runtime.Types.{Response, SuccessResponse}
use omp_remote.Daemon.Store.Types.{Outside}
use omp_remote.Daemon.Controller.Preserved.{
  Preserves, steps, ◌▸◌, Preserves-modify, Preserves-pure, Preserves-raise, Preserves-lift,
  Preserves-gets, Preserves-raise_if,
}
use omp_remote.Daemon.Controller.Action.{modify}
use omp_remote.Daemon.Controller.Types.{ControllerError, Tasks, RuntimeConfig, Body, state}
use omp_remote.Daemon.Controller.Calls.{unix_time_ms, runtime_process_id, on_registry}
use omp_remote.Daemon.Controller.Lifecycle.{
  get_or_create, take_state, load_session, take_runtime, launch, stop, keep_runtime, forget_runtime,
}
use omp_remote.Daemon.Controller.Execute.{
  snapshot_of, snapshots, finish_prompt, send_prompt, start_run, prompt, command, abort_run,
  active_run_of, abort_agent, send_ui_response,
}
use omp_remote.Daemon.Controller.Alive.{
  AllAlive, IsGentle, wait_alive, system_alive, agent_alive, run_id_alive, lifecycle_alive,
  persist_alive, lookup_alive, runtime_alive, end_run_alive, fail_alive,
}

module _ {P : Payloads} {o : Outside P} (d : Tasks o) (gentle : IsGentle d) where
  get_or_create_alive : (agent_id : AgentId) → Preserves (AllAlive d) (get_or_create d agent_id)
  unfolding get_or_create on_registry
  get_or_create_alive agent_id = record {
    after = λ w a. elim (Option-cases (Registry.get d.mpsc agent_id w.registry)) [
      | inl e ↦
          rw (e, get_or_create)
            (perform_all-IsAlive d.mpsc (create_call agent_id ∷ []) w.registry a)
      | inr (h, e) ↦ rw (e, get_or_create) a
    ];
  }

  take_state_alive :
      (h : AgentHandle) (r : Result String (Response (Body P)))
      → Preserves (AllAlive d) (take_state d h r)
  unfolding take_state
  take_state_alive h (ok (Response.success id (SuccessResponse.other (state s)))) =
      search (steps, wait_alive d gentle, agent_alive d gentle)
  take_state_alive h r = search steps

  load_session_alive :
      (h : AgentHandle) (runtime : ℕ) → Preserves (AllAlive d) (load_session d h runtime)
  unfolding load_session
  load_session_alive h runtime = record {
    after = λ w a. (take_state_alive h _).after _ (gentle w a);
  }

  forget_alive :
      (agent_id : AgentId)
      → Preserves {E = ControllerError} (AllAlive d) (modify (forget_runtime d agent_id))
  forget_alive agent_id = Preserves-modify (forget_runtime d agent_id) (λ w a. a)

  keep_alive :
      (h : AgentHandle) (agent_id : AgentId) (runtime : ℕ) (process_id : Option ℕ)
      → Preserves {E = ControllerError}
          (AllAlive d)
          (modify (keep_runtime d h agent_id runtime process_id))
  keep_alive h agent_id runtime process_id =
      Preserves-modify (keep_runtime d h agent_id runtime process_id) (λ w a. a)

  pub launch_alive :
      (agent_id : AgentId) (config : RuntimeConfig)
      → Preserves (AllAlive d) (launch d agent_id config)
  unfolding launch runtime_process_id
  launch_alive agent_id config = wait_alive d gentle ▸ λ _. Preserves-gets _ ▸ λ _.
      Preserves-raise_if _ _ ▸ λ _. forget_alive agent_id ▸ λ _. wait_alive d gentle ▸ λ _.
      system_alive d gentle _ ▸ λ _. get_or_create_alive agent_id ▸ λ h.
      lifecycle_alive d gentle h _ ▸ λ _. load_session_alive h _ ▸ λ _.
      Preserves-gets _ ▸ λ _. persist_alive d gentle h _ _ ▸ λ _. keep_alive h agent_id _ _

  take_runtime_alive : (agent_id : AgentId) → Preserves (AllAlive d) (take_runtime d agent_id)
  unfolding take_runtime
  take_runtime_alive agent_id = record { after = gentle }

  remove_alive :
      (agent_id : AgentId)
      → Preserves (AllAlive d) (on_registry d (Registry.remove d.mpsc agent_id))
  unfolding on_registry
  remove_alive agent_id = record {
    after = λ w a. perform_all-IsAlive d.mpsc (remove_call agent_id ∷ []) w.registry a;
  }

  pub stop_alive : (agent_id : AgentId) → Preserves (AllAlive d) (stop d agent_id)
  unfolding stop
  stop_alive agent_id = take_runtime_alive agent_id ▸ λ _. lookup_alive d gentle agent_id ▸ λ h.
      lifecycle_alive d gentle h _ ▸ λ _. wait_alive d gentle ▸ λ _. system_alive d gentle _ ▸ λ _.
      lifecycle_alive d gentle h _ ▸ λ _.
      persist_alive d gentle h _ _ ▸ λ _. wait_alive d gentle ▸ λ _. remove_alive agent_id

  pub snapshot_alive : (h : AgentHandle) → Preserves (AllAlive d) (snapshot_of d h)
  unfolding snapshot_of
  snapshot_alive h = wait_alive d gentle ▸ λ _. agent_alive d gentle h _ _

  pub snapshots_alive : (ids : List AgentId) → Preserves (AllAlive d) (snapshots d ids)
  unfolding snapshots
  snapshots_alive [] = record { after = λ w a. a }
  snapshots_alive (agent_id ∷ ids) = record {
    after = λ w a. elim (Option-cases (Registry.get d.mpsc agent_id w.registry)) [
      | inl e ↦ rw (e, snapshots) ((snapshots_alive ids).after w a)
      | inr (h, e) ↦
          rw (e, snapshots)
            ((snapshot_alive h ▸ λ _. snapshots_alive ids ▸ λ _. Preserves-pure _).after w a)
    ];
  }

  finish_prompt_alive :
      (h : AgentHandle) (run_id : RunId) (r : Result String (Response (Body P)))
      → Preserves (AllAlive d) (finish_prompt d h run_id r)
  unfolding finish_prompt
  finish_prompt_alive h run_id (ok response) = Preserves-lift _ ▸ λ _. Preserves-pure _
  finish_prompt_alive h run_id (err message) =
      fail_alive d gentle h message ▸ λ _. Preserves-raise _

  send_prompt_alive :
      (h : AgentHandle) (run_id : RunId)
      (ask : d.system.State → Result String (Response (Body P)) × d.system.State)
      → Preserves (AllAlive d) (send_prompt d h run_id ask)
  unfolding send_prompt
  send_prompt_alive h run_id ask = record {
    after = λ w a. (finish_prompt_alive h run_id _).after _ (gentle w a);
  }

  start_run_alive : (agent_id : AgentId) → Preserves (AllAlive d) (start_run d agent_id)
  unfolding start_run unix_time_ms runtime_process_id
  start_run_alive agent_id = runtime_alive d gentle agent_id ▸ λ r.
      lookup_alive d gentle agent_id ▸ λ h. run_id_alive d gentle ▸ λ _. Preserves-gets _ ▸ λ _.
      wait_alive d gentle ▸ λ _. agent_alive d gentle h _ _ ▸ λ _.
      lifecycle_alive d gentle h _ ▸ λ _.
      Preserves-gets _ ▸ λ _. persist_alive d gentle h _ _ ▸ λ _. Preserves-pure _

  pub prompt_alive :
      (agent_id : AgentId) (message : String) (images : List P.Image) (s : Option P.Streaming)
      → Preserves (AllAlive d) (prompt d agent_id message images s)
  unfolding prompt
  prompt_alive agent_id message images s =
      start_run_alive agent_id ▸ λ (h, run_id, r). send_prompt_alive h run_id _

  pub command_alive :
      (agent_id : AgentId) (body : Body P) → Preserves (AllAlive d) (command d agent_id body)
  unfolding command
  command_alive agent_id body = runtime_alive d gentle agent_id ▸ λ _.
      wait_alive d gentle ▸ λ _. system_alive d gentle _ ▸ λ _. Preserves-lift _

  abort_run_alive :
      (agent_id : AgentId) (run : Option RunSnapshot)
      → Preserves (AllAlive d) (abort_run d agent_id run)
  unfolding abort_run unix_time_ms
  abort_run_alive agent_id none = Preserves-pure _
  abort_run_alive agent_id (some run) =
      Preserves-gets _ ▸ λ _. lookup_alive d gentle agent_id ▸ λ h. end_run_alive d gentle h _ _ _

  active_run_alive : (h : AgentHandle) → Preserves (AllAlive d) (active_run_of d h)
  unfolding active_run_of
  active_run_alive h = record {
    after = λ w a. elim (Result-cases (snapshot_of d h w).0) [
      | inl (s, e) ↦ rw (e, active_run_of) ((snapshot_alive h).after w a)
      | inr (x, e) ↦ rw (e, active_run_of) ((snapshot_alive h).after w a)
    ];
  }

  pub abort_alive : (agent_id : AgentId) → Preserves (AllAlive d) (abort_agent d agent_id)
  unfolding abort_agent
  abort_alive agent_id = command_alive agent_id _ ▸ λ _. lookup_alive d gentle agent_id ▸ λ h.
      active_run_alive h ▸ λ run. abort_run_alive agent_id run ▸ λ _. Preserves-pure _

  pub ui_response_alive :
      (agent_id : AgentId) (holder : LeaseHolderId) (response : P.UiResponse)
      → Preserves (AllAlive d) (send_ui_response d agent_id holder response)
  unfolding send_ui_response unix_time_ms
  ui_response_alive agent_id holder response = lookup_alive d gentle agent_id ▸ λ h.
      snapshot_alive h ▸ λ s. Preserves-gets _ ▸ λ _. Preserves-raise_if _ _ ▸ λ _.
      runtime_alive d gentle agent_id ▸ λ _. wait_alive d gentle ▸ λ _. system_alive d gentle _
