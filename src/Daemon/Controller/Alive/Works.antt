-- ===== src/Daemon/Controller/Alive/Works.antt =====
-- A daemon's work in crates/ompd/src/controller.rs: requests, the events of runtimes, and the end.
use omp_remote.Prelude.{ℕ, Option, none, some, List, [], ◌∷◌, Option-cases, Bool-cases, inl, inr}
use omp_remote.Prelude.BTreeMap.{BTreeMap}
use omp_remote.Protocol.Frame.Types.{Payloads, ControlRequest}
use omp_remote.Plane.Registry
use omp_remote.Plane.Registry.{AgentHandle}
use omp_remote.Runtime.Types.{RuntimeEvent, ServerMessage}
use omp_remote.Daemon.Store.Types.{Outside}
use omp_remote.Daemon.Controller.Preserved.{
  Preserves, ◌▸◌, Preserves-pure, Preserves-gets, Preserves-attempt, Preserves-raise_if,
}
use omp_remote.Daemon.Controller.Action.{◌>>◌}
use omp_remote.Daemon.Controller.Types.{Tasks, Bridge, Body, ControllerError}
use omp_remote.Daemon.Controller.Calls.{Shared, wait, unix_time_ms}
use omp_remote.Daemon.Controller.Lifecycle.{shutdown_agent, shutdown_all, shutdown, first_error}
use omp_remote.Daemon.Controller.Execute.{
  list_agents, list_devices, revoke, get_agent, execute_inner, execute,
}
use omp_remote.Daemon.Controller.Bridge.{
  Received, event, lagged, closed, follow_frame, end_agent, receive, bridge_events, goes_on,
}
use omp_remote.Daemon.Controller.Alive.{
  AllAlive, IsGentle, wait_alive, system_alive, agent_alive, store_alive, lifecycle_alive,
  persist_alive, lookup_alive, complete_alive,
}
use omp_remote.Daemon.Controller.Alive.Requests.{
  launch_alive, stop_alive, snapshot_alive, snapshots_alive, prompt_alive, command_alive,
  abort_alive, ui_response_alive,
}

-- What the daemon is given to do: a request, the events of a bridge, or the end.
pub data Work (P : Payloads) : Type 0 where
  request : ControlRequest P → Work P
  events : Bridge → List (Received P) → Work P
  finish : Work P

module _ {P : Payloads} {o : Outside P} (d : Tasks o) where
  abbrev pub work : Work P → Shared d → Shared d
  work (request r) w = (execute d r w).1
  work (events b received) w = bridge_events d b received w
  work finish w = (shutdown d w).1

  abbrev pub works : List (Work P) → Shared d → Shared d
  works [] w = w
  works (x ∷ rest) w = works rest (work x w)

  module _ (gentle : IsGentle d) where
    execute_alive : (r : ControlRequest P) → Preserves (AllAlive d) (execute_inner d r)
    unfolding execute_inner list_agents list_devices revoke get_agent unix_time_ms
    execute_alive ControlRequest.list_agents =
        Preserves-gets _ ▸ λ _. snapshots_alive d gentle _ ▸ λ _. Preserves-pure _
    execute_alive ControlRequest.list_devices = store_alive d gentle _ ▸ λ _. Preserves-pure _
    execute_alive (ControlRequest.revoke_device device_id) = Preserves-gets _ ▸ λ _.
        store_alive d gentle _ ▸ λ _. Preserves-raise_if _ _ ▸ λ _. Preserves-pure _
    execute_alive (ControlRequest.get_agent agent_id) =
        lookup_alive d gentle agent_id ▸ λ h. snapshot_alive d gentle h ▸ λ _. Preserves-pure _
    execute_alive (ControlRequest.launch_agent agent_id) =
        Preserves-gets _ ▸ λ _. launch_alive d gentle agent_id _ ▸ λ _. Preserves-pure _
    execute_alive (ControlRequest.stop_agent agent_id) =
        stop_alive d gentle agent_id ▸ λ _. Preserves-pure _
    execute_alive (ControlRequest.prompt agent_id message images streaming) =
        prompt_alive d gentle agent_id message images streaming
    execute_alive (ControlRequest.steer agent_id message images) =
        command_alive d gentle agent_id _ ▸ λ _. Preserves-pure _
    execute_alive (ControlRequest.follow_up agent_id message images) =
        command_alive d gentle agent_id _ ▸ λ _. Preserves-pure _
    execute_alive (ControlRequest.abort agent_id) = abort_alive d gentle agent_id
    execute_alive (ControlRequest.switch_session agent_id path) =
        stop_alive d gentle agent_id ▸ λ _.
        Preserves-gets _ ▸ λ _. launch_alive d gentle agent_id _ ▸ λ _. Preserves-pure _
    execute_alive (ControlRequest.respond_to_ui agent_id holder response) =
        ui_response_alive d gentle agent_id holder response ▸ λ _. Preserves-pure _
    execute_alive (ControlRequest.acquire_interaction_lease agent_id holder ttl_ms) =
        lookup_alive d gentle agent_id ▸ λ h. Preserves-gets _ ▸ λ _.
        wait_alive d gentle ▸ λ _. agent_alive d gentle h _ _ ▸ λ _. Preserves-pure _
    execute_alive (ControlRequest.release_interaction_lease agent_id holder) =
        lookup_alive d gentle agent_id ▸ λ h.
        wait_alive d gentle ▸ λ _. agent_alive d gentle h _ _ ▸ λ _. Preserves-pure _

    follow_alive :
        (b : Bridge) (frame : ServerMessage (Body P))
        → Preserves (AllAlive d) (follow_frame d b frame)
    unfolding follow_frame
    follow_alive b ServerMessage.agent_start =
        Preserves-attempt _ (lifecycle_alive d gentle b.agent _)
    follow_alive b (ServerMessage.agent_end body) = complete_alive d gentle b.agent ▸ λ _.
        Preserves-attempt _ (lifecycle_alive d gentle b.agent _) ▸ λ _.
        Preserves-attempt _ (persist_alive d gentle b.agent _ _)
    follow_alive b (ServerMessage.response r) = Preserves-pure _
    follow_alive b (ServerMessage.ready limit capabilities) = Preserves-pure _
    follow_alive b (ServerMessage.prompt_result id done) = Preserves-pure _
    follow_alive b (ServerMessage.other body) = Preserves-pure _

    end_alive : (b : Bridge) (l : _) → Preserves (AllAlive d) (end_agent d b l)
    unfolding end_agent
    end_alive b l = Preserves-attempt _ (lifecycle_alive d gentle b.agent l) ▸ λ _.
        Preserves-attempt _ (persist_alive d gentle b.agent _ _)

    receive_alive : (b : Bridge) (r : Received P) → Preserves (AllAlive d) (receive d b r)
    unfolding receive
    receive_alive b (event (RuntimeEvent.frame frame)) = follow_alive b frame ▸ λ _.
        Preserves-attempt _ (wait_alive d gentle ▸ λ _. agent_alive d gentle b.agent _ _) ▸ λ _.
        Preserves-pure _
    receive_alive b (event (RuntimeEvent.exited exit)) = end_alive b _ ▸ λ _. Preserves-pure _
    receive_alive b (event (RuntimeEvent.failed message)) = end_alive b _ ▸ λ _. Preserves-pure _
    receive_alive b (event (RuntimeEvent.stderr line)) = Preserves-pure _
    receive_alive b lagged =
        Preserves-attempt _ (lifecycle_alive d gentle b.agent _) ▸ λ _. Preserves-pure _
    receive_alive b closed = Preserves-pure _

    bridge_alive :
        (b : Bridge) (received : List (Received P)) (w : Shared d)
        → AllAlive d w
        → AllAlive d (bridge_events d b received w)
    unfolding bridge_events
    bridge_alive b [] w a = a
    bridge_alive b (r ∷ rest) w a =
        let kept = (wait_alive d gentle ▸ λ _. receive_alive b r).after w a in
        let after = (wait d >> receive d b r) w in
        let later = bridge_alive b rest after.1 kept in
        elim (Bool-cases (goes_on d b after.0)) [
          | inl more ↦ rw (more, bridge_events) later
          | inr ended ↦ rw (ended, bridge_events) kept
        ]

    shutdown_agent_alive :
        (h : AgentHandle) (runtime : ℕ) (first : Option ControllerError) (w : Shared d)
        → AllAlive d w
        → AllAlive d (shutdown_agent d h runtime first w).1
    unfolding shutdown_agent
    shutdown_agent_alive h runtime first w a =
        let a1 = (lifecycle_alive d gentle h _).after w a in
        let a2 = (system_alive d gentle _).after _ (gentle _ a1) in
        let a3 = (lifecycle_alive d gentle h _).after _ a2 in
        (persist_alive d gentle h none none).after _ a3

    shutdown_all_alive :
        (runtimes : BTreeMap ℕ) (first : Option ControllerError) (w : Shared d)
        → AllAlive d w
        → AllAlive d (shutdown_all d runtimes first w).1
    unfolding shutdown_all
    shutdown_all_alive [] first w a = a
    shutdown_all_alive ((agent_id, runtime) ∷ rest) first w a =
        elim (Option-cases (Registry.get d.mpsc agent_id w.registry)) [
          | inl e ↦ rw (e, shutdown_all) (shutdown_all_alive rest first w a)
          | inr (h, e) ↦
              rw (e, shutdown_all)
                (shutdown_all_alive rest _ _ (shutdown_agent_alive h runtime first w a))
        ]

    finish_alive :
        (x : Option ControllerError × Shared d) → AllAlive d x.1 → AllAlive d (first_error d x).1
    finish_alive (none, w) a = a
    finish_alive (some e, w) a = a

    work_alive : (x : Work P) (w : Shared d) → AllAlive d w → AllAlive d (work x w)
    unfolding execute shutdown
    work_alive (request r) w a = (execute_alive r).after w a
    work_alive (events b received) w a = bridge_alive b received w a
    work_alive finish w a =
        finish_alive _ (shutdown_all_alive (d.elsewhere w).runtimes none _ (gentle w a))

    -- Whatever requests are executed, events handled and runtimes shut down, each handle of the
    -- registry keeps a running task of its own, which has that agent's state, if what other tasks
    -- do in between leaves it so.
    pub works-AllAlive :
        (xs : List (Work P)) (w : Shared d) → AllAlive d w → AllAlive d (works xs w)
    works-AllAlive [] w a = a
    works-AllAlive (x ∷ xs) w a = works-AllAlive xs (work x w) (work_alive x w a)
