-- ===== src/Daemon/Controller/Resumed/Continued.antt =====
-- The snapshot of an agent that was restored from the store by `DaemonController::new` of
-- crates/ompd/src/controller.rs.
use omp_remote.Prelude.{◌≡◌, refl, Option, none, some, []}
use omp_remote.Protocol.State.{AgentSnapshot, unclaimed}
use omp_remote.Daemon.Store.Types.{AgentRecord, SessionResumeRecord}
use omp_remote.Daemon.Controller.Records.{resumed}

-- A snapshot of the recorded agent without runs, holder or commands.
pub record IsIdle (a : AgentRecord) (snapshot : AgentSnapshot) : Type 0 where
  pub named : snapshot.agent_id ≡ a.agent_id
  pub lifecycle : snapshot.lifecycle ≡ a.lifecycle
  pub run : snapshot.active_run ≡ none
  pub runs : snapshot.recent_runs ≡ []
  pub holder : snapshot.interaction ≡ unclaimed
  pub commands : snapshot.available_commands ≡ []

-- The snapshot is at the revision and the event sequence of the session, and of its ID and file; without
-- one it begins at zero.
abbrev pub Continues : Option SessionResumeRecord → AgentSnapshot → Type 0
Continues none snapshot =
    (snapshot.session ≡ none) × (snapshot.revision ≡ 0) × (snapshot.event_sequence ≡ 0)
Continues (some s) snapshot =
    (snapshot.session
      ≡ some (record {
        session_id = s.session_id;
        session_file = some s.session_file;
        name = none;
        message_count = 0;
      }))
    × (snapshot.revision ≡ s.revision)
    × (snapshot.event_sequence ≡ s.event_sequence)

pub resumed-Continues :
    (a : AgentRecord) (s : Option SessionResumeRecord) → Continues s (resumed a s)
resumed-Continues a none = (refl, refl, refl)
resumed-Continues a (some s) = (refl, refl, refl)

pub resumed-IsIdle : (a : AgentRecord) (s : Option SessionResumeRecord) → IsIdle a (resumed a s)
resumed-IsIdle a s = record {
  named = refl;
  lifecycle = refl;
  run = refl;
  runs = refl;
  holder = refl;
  commands = refl;
}
