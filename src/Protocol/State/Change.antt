-- ===== src/Protocol/State/Change.antt =====
-- `apply_change` and `would_change`.
use mathlib.Core.Logic.{ite}
use omp_remote.Prelude.{
  Bool, true, false, Option, none, some, List, [], ◌∷◌, ◌++◌, String_discrete, if◌then◌else◌,
}
use omp_remote.Protocol.Id.{AgentId, RunId}
use omp_remote.Protocol.State.Types.{
  AgentLifecycle, RunLifecycle, RunSnapshot, InteractionState, AgentSnapshot, AgentStateChange,
  lifecycle_changed, session_changed, session_cleared, run_upserted, run_removed,
  interaction_changed, available_commands_changed, AgentSnapshot_discrete,
}

-- `AgentSnapshot::initial`.
abbrev pub initial : AgentId → AgentSnapshot
initial agent_id = record {
  agent_id = agent_id;
  revision = 0;
  event_sequence = 0;
  lifecycle = AgentLifecycle.starting;
  session = none;
  active_run = none;
  recent_runs = [];
  interaction = InteractionState.unclaimed;
  available_commands = [];
}

unfoldable pub is_terminal : RunLifecycle → Bool
is_terminal RunLifecycle.queued = false
is_terminal RunLifecycle.running = false
is_terminal RunLifecycle.completed = true
is_terminal RunLifecycle.aborted = true
is_terminal RunLifecycle.interrupted = true
is_terminal (RunLifecycle.failed reason) = true

-- `recent_runs.retain(|candidate| candidate.run_id != run_id)`.
unfoldable pub retain_other_runs : RunId → List RunSnapshot → List RunSnapshot
retain_other_runs run_id [] = []
retain_other_runs run_id (candidate ∷ runs) =
    ite (String_discrete candidate.run_id run_id) (retain_other_runs run_id runs)
      (candidate ∷ retain_other_runs run_id runs)

-- Clears the active run if it has this ID.
unfoldable pub clear_active_run : RunId → Option RunSnapshot → Option RunSnapshot
clear_active_run run_id none = none
clear_active_run run_id (some active) =
    ite (String_discrete active.run_id run_id) none (some active)

unfoldable pub upsert_run : AgentSnapshot → RunSnapshot → AgentSnapshot
unfolding is_terminal retain_other_runs clear_active_run
upsert_run s run =
    let others = retain_other_runs run.run_id s.recent_runs in
    if is_terminal run.lifecycle
    then record s {
      active_run = clear_active_run run.run_id s.active_run;
      recent_runs = others ++ run ∷ [];
    }
    else record s { active_run = some run; recent_runs = others }

unfoldable pub apply_change : AgentSnapshot → AgentStateChange → AgentSnapshot
unfolding upsert_run
apply_change s (lifecycle_changed lifecycle) = record s { lifecycle = lifecycle }
apply_change s (session_changed session) = record s { session = some session }
apply_change s session_cleared = record s { session = none }
apply_change s (run_upserted run) = upsert_run s run
apply_change s (run_removed run_id) = record s {
  active_run = clear_active_run run_id s.active_run;
  recent_runs = retain_other_runs run_id s.recent_runs;
}
apply_change s (interaction_changed interaction) = record s { interaction = interaction }
apply_change s (available_commands_changed commands) = record s { available_commands = commands }

unfoldable pub would_change : AgentSnapshot → AgentStateChange → Bool
would_change s change = ite (AgentSnapshot_discrete (apply_change s change) s) false true
