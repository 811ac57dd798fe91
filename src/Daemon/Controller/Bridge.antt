-- ===== src/Daemon/Controller/Bridge.antt =====
-- `spawn_event_bridge` of crates/ompd/src/controller.rs: what the events of a runtime do to its agent.
use omp_remote.Prelude.{Bool, true, false, none, List, [], ◌∷◌, Result, ok, err}
use omp_remote.Protocol.State.{AgentLifecycle}
use omp_remote.Protocol.Frame.Types.{Payloads}
use omp_remote.Plane.Handle
use omp_remote.Runtime.Types.{RuntimeEvent, RuntimeExit, ServerMessage}
use omp_remote.Daemon.Store.Types.{Outside}
use omp_remote.Daemon.Controller.Action.{◌>>◌, pure, attempt}
use omp_remote.Daemon.Controller.Types.{Body, Tasks, Bridge, ControllerError}
use omp_remote.Daemon.Controller.Calls.{
  Does, Shared, wait, on_agent, set_lifecycle, persist_snapshot, complete_active_run,
}

-- What `events.recv()` gives.
pub data Received (P : Payloads) : Type 0 where
  event : RuntimeEvent (Body P) → Received P
  lagged closed : Received P

module _ {P : Payloads} {o : Outside P} (d : Tasks o) (b : Bridge) where
  abbrev pub exit_lifecycle : RuntimeExit → AgentLifecycle
  exit_lifecycle exit = elim exit.success [
    | true ↦ AgentLifecycle.stopped
    | false ↦ AgentLifecycle.failed (d.system.exit_text exit.code)
  ]

  -- `match &frame`: the two ends of a turn.
  unfoldable pub follow_frame : ServerMessage (Body P) → Does d (Unit {0})
  follow_frame ServerMessage.agent_start = attempt (set_lifecycle d b.agent AgentLifecycle.running)
  follow_frame (ServerMessage.agent_end body) = do
    complete_active_run d b.agent
    attempt (set_lifecycle d b.agent AgentLifecycle.idle)
    attempt (persist_snapshot d b.agent b.process_id none)
  follow_frame (ServerMessage.response r) = pure tt
  follow_frame (ServerMessage.ready limit capabilities) = pure tt
  follow_frame (ServerMessage.prompt_result id done) = pure tt
  follow_frame (ServerMessage.other body) = pure tt

  -- The agent's last state, when its runtime has ended.
  unfoldable pub end_agent : AgentLifecycle → Does d (Unit {0})
  end_agent lifecycle =
      attempt (set_lifecycle d b.agent lifecycle) >> attempt (persist_snapshot d b.agent none none)

  -- One round of the loop; `false` ends it.
  unfoldable pub receive : Received P → Does d Bool
  receive (event (RuntimeEvent.frame frame)) = do
    follow_frame frame
    attempt (wait d >> on_agent d (λ clock. Handle.publish_event d.mpsc clock b.agent frame))
    pure true
  receive (event (RuntimeEvent.exited exit)) = end_agent (exit_lifecycle exit) >> pure false
  receive (event (RuntimeEvent.failed message)) =
      end_agent (AgentLifecycle.failed message) >> pure false
  receive (event (RuntimeEvent.stderr line)) = pure true
  receive lagged = do
    attempt (set_lifecycle d b.agent (AgentLifecycle.failed "local OMP event bridge fell behind"))
    pure true
  receive closed = pure false

  abbrev pub goes_on : Result ControllerError Bool → Bool
  goes_on (ok more) = more
  goes_on (err e) = false

  -- The loop over what is received; other tasks run before each.
  unfoldable pub bridge_events : List (Received P) → Shared d → Shared d
  bridge_events [] w = w
  bridge_events (r ∷ rest) w =
      let (more, w') = (wait d >> receive r) w in
      let later = bridge_events rest w' in elim (goes_on more) [ true ↦ later | false ↦ w' ]
