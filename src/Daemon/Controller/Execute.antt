-- ===== src/Daemon/Controller/Execute.antt =====
-- `execute` of crates/ompd/src/controller.rs: what each request does and answers.
use omp_remote.Prelude.{
  ℕ, not, String, Option, none, some, List, [], ◌∷◌, ◌++◌, Result, ok, err, map,
}
use omp_remote.Protocol.Id.{AgentId, RunId, DeviceId, LeaseHolderId}
use omp_remote.Protocol.State.{AgentSnapshot, AgentLifecycle, RunLifecycle, RunSnapshot}
use omp_remote.Protocol.Frame.Types.{Payloads, ControlRequest, ControlResponse, ResponseOutcome}
use omp_remote.Plane.Registry
use omp_remote.Plane.Registry.{AgentHandle}
use omp_remote.Plane.Handle
use omp_remote.Runtime.Types.{Response, CommandKind, ClientMessage}
use omp_remote.Daemon.Store.Types.{Outside}
use omp_remote.Daemon.Store.Devices.Listing.{devices}
use omp_remote.Daemon.Store.Devices.Ops.{revoke_device}
use omp_remote.Daemon.Controller.Action.{◌>>=◌, ◌>>◌, pure, raise, lift, gets, raise_if}
use omp_remote.Daemon.Controller.Types.{
  ControllerError, Body, Tasks, device_not_found, interaction_lease_required, steer, follow_up,
  abort, ui_response,
}
use omp_remote.Daemon.Controller.Records.{
  non_empty, device_summary, holds_lease, ensure_rpc_success, outcome_of,
}
use omp_remote.Daemon.Controller.Calls.{
  Does, Shared, wait, unix_time_ms, new_run_id, on_system, on_agent, on_store, set_lifecycle, agent,
  runtime, persist_snapshot, runtime_process_id, end_run, fail_active_run,
}
use omp_remote.Daemon.Controller.Lifecycle.{launch, stop}

module _ {P : Payloads} {o : Outside P} (d : Tasks o) where
  unfoldable pub snapshot_of : AgentHandle → Does d AgentSnapshot
  snapshot_of h = wait d >> on_agent d (λ clock. Handle.snapshot d.mpsc clock h)

  -- The agents that are still there when their turn comes.
  unfoldable pub snapshots : List AgentId → Does d (List AgentSnapshot)
  snapshots [] w = (ok [], w)
  snapshots (agent_id ∷ ids) w =
      let rest = snapshots ids in
      elim (Registry.get d.mpsc agent_id w.registry) [
        | none ↦ rest w
        | some h ↦ (do s ← snapshot_of h; others ← rest; pure (s ∷ others)) w
      ]

  unfoldable pub list_agents : Does d ControlResponse
  list_agents = do
    ids ← gets (λ w. Registry.list d.mpsc w.registry)
    agents ← snapshots ids
    pure (ControlResponse.agents agents)

  unfoldable pub list_devices : Does d ControlResponse
  list_devices = do
    records ← on_store d (λ c. (devices o c, c))
    pure (ControlResponse.devices (map device_summary records))

  unfoldable pub revoke : DeviceId → Does d ControlResponse
  revoke device_id = do
    now_ms ← unix_time_ms d
    revoked ← on_store d (revoke_device o device_id now_ms)
    raise_if (not revoked) (device_not_found device_id)
    pure (ControlResponse.device_revoked device_id)

  unfoldable pub get_agent : AgentId → Does d ControlResponse
  get_agent agent_id = do h ← agent d agent_id; s ← snapshot_of h; pure (ControlResponse.agent s)

  -- What is done with the runtime's answer to a prompt. A refusal leaves the run as it is.
  unfoldable pub finish_prompt :
      AgentHandle → RunId → Result String (Response (Body P)) → Does d ControlResponse
  finish_prompt h run_id (ok response) =
      lift (ensure_rpc_success response) >> pure (ControlResponse.prompt_accepted run_id)
  finish_prompt h run_id (err message) =
      fail_active_run d h message >> raise (ControllerError.runtime message)

  unfoldable pub send_prompt :
      AgentHandle
      → RunId
      → (d.system.State → Result String (Response (Body P)) × d.system.State)
      → Does d ControlResponse
  send_prompt h run_id ask w =
      let w' = d.elsewhere w in
      let (answer, system) = ask w'.system in
      finish_prompt h run_id answer (record w' { system = system })

  abbrev pub running_run : RunId → ℕ → RunSnapshot
  running_run run_id now_ms = record {
    run_id = run_id;
    lifecycle = RunLifecycle.running;
    started_at_ms = now_ms;
    ended_at_ms = none;
  }

  -- What a prompt does before the runtime is asked: the agent and the store have its run.
  unfoldable pub start_run : AgentId → Does d (AgentHandle × RunId × ℕ)
  start_run agent_id = do
    r ← runtime d agent_id
    h ← agent d agent_id
    run_id ← new_run_id d
    now_ms ← unix_time_ms d
    wait d
    on_agent d (λ clock. Handle.upsert_run d.mpsc clock h (running_run run_id now_ms))
    set_lifecycle d h AgentLifecycle.running
    process_id ← runtime_process_id d r
    persist_snapshot d h process_id (some run_id)
    pure (h, run_id, r)

  unfoldable pub prompt :
      AgentId → String → List P.Image → Option P.Streaming → Does d ControlResponse
  prompt agent_id message images streaming_behavior = start_run agent_id >>= λ (h, run_id, r).
      send_prompt h run_id (d.system.prompt r message (non_empty images) streaming_behavior)

  -- A command to the agent's runtime, which must succeed.
  unfoldable pub command : AgentId → Body P → Does d (Unit {0})
  command agent_id body = do
    r ← runtime d agent_id
    wait d
    response ← on_system d (d.system.request r (CommandKind.other body))
    lift (ensure_rpc_success response)

  -- The handle is looked up again for the change.
  unfoldable pub abort_run : AgentId → Option RunSnapshot → Does d (Unit {0})
  abort_run agent_id none = pure tt
  abort_run agent_id (some run) = do
    now_ms ← unix_time_ms d
    h ← agent d agent_id
    end_run d h RunLifecycle.aborted now_ms (some run)

  -- Without a snapshot there is no run to abort.
  unfoldable pub active_run_of : AgentHandle → Does d (Option RunSnapshot)
  active_run_of h w =
      let (r, w') = snapshot_of h w in
      elim r [ ok s ↦ (ok s.active_run, w') | err e ↦ (ok none, w') ]

  unfoldable pub abort_agent : AgentId → Does d ControlResponse
  abort_agent agent_id = do
    command agent_id abort
    h ← agent d agent_id
    run ← active_run_of h
    abort_run agent_id run
    pure ControlResponse.accepted

  unfoldable pub send_ui_response : AgentId → LeaseHolderId → P.UiResponse → Does d (Unit {0})
  send_ui_response agent_id holder response = do
    h ← agent d agent_id
    s ← snapshot_of h
    now_ms ← unix_time_ms d
    raise_if (not (holds_lease s.interaction holder now_ms)) interaction_lease_required
    r ← runtime d agent_id
    wait d
    on_system d (d.system.send r (ClientMessage.other (ui_response response)))

  unfoldable pub execute_inner : ControlRequest P → Does d ControlResponse
  execute_inner ControlRequest.list_agents = list_agents
  execute_inner ControlRequest.list_devices = list_devices
  execute_inner (ControlRequest.revoke_device device_id) = revoke device_id
  execute_inner (ControlRequest.get_agent agent_id) = get_agent agent_id
  execute_inner (ControlRequest.launch_agent agent_id) = do
    config ← gets (λ w. w.runtime_config)
    launch d agent_id config
    pure ControlResponse.accepted
  execute_inner (ControlRequest.stop_agent agent_id) =
      stop d agent_id >> pure ControlResponse.accepted
  execute_inner (ControlRequest.prompt agent_id message images streaming_behavior) =
      prompt agent_id message images streaming_behavior
  execute_inner (ControlRequest.steer agent_id message images) =
      command agent_id (steer message (non_empty images)) >> pure ControlResponse.accepted
  execute_inner (ControlRequest.follow_up agent_id message images) =
      command agent_id (follow_up message (non_empty images)) >> pure ControlResponse.accepted
  execute_inner (ControlRequest.abort agent_id) = abort_agent agent_id
  execute_inner (ControlRequest.switch_session agent_id session_path) = do
    stop d agent_id
    config ← gets (λ w. w.runtime_config)
    launch d agent_id (config ++ "--session" ∷ session_path ∷ [])
    pure ControlResponse.accepted
  execute_inner (ControlRequest.respond_to_ui agent_id holder response) =
      send_ui_response agent_id holder response >> pure ControlResponse.accepted
  execute_inner (ControlRequest.acquire_interaction_lease agent_id holder ttl_ms) = do
    h ← agent d agent_id
    now_ms ← unix_time_ms d
    wait d
    lease ←
        on_agent d (λ clock. Handle.acquire_interaction_lease d.mpsc clock h holder now_ms ttl_ms)
    pure (ControlResponse.interaction_lease lease)
  execute_inner (ControlRequest.release_interaction_lease agent_id holder) = do
    h ← agent d agent_id
    wait d
    on_agent d (λ clock. Handle.release_interaction_lease d.mpsc clock h holder)
    pure ControlResponse.interaction_released

  unfoldable pub execute : ControlRequest P → Shared d → ResponseOutcome × Shared d
  execute request w = let (r, w') = execute_inner request w in (outcome_of r, w')
