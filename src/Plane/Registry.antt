-- ===== src/Plane/Registry.antt =====
-- crates/omp-control-plane/src/registry.rs, with the spawning and the shutdown of actors from actor.rs.
-- A task is its number, and the channel to it too; the tasks that run are kept with their states.
pub mod Alive
use omp_remote.Prelude.{ℕ, suc, Bool, Option, none, some, List, Result, ok, err, true, false}
use omp_remote.Prelude.BTreeMap
use omp_remote.Prelude.BTreeMap.{BTreeMap, contains_key, keys}
use omp_remote.Prelude.NumMap
use omp_remote.Prelude.NumMap.{NumMap}
use omp_remote.Protocol.Id.{AgentId}
use omp_remote.Protocol.State.{AgentSnapshot, AgentUpdate, initial}
use omp_remote.Plane.Mpsc.{Mpsc}
use omp_remote.Plane.Actor.Types.{AgentActorConfig, AgentError, ActorState, stopped}
use omp_remote.Plane.Actor.Loop.{spawned}

pub record AgentHandle : Type 0 where
  pub agent_id : AgentId
  pub command_tx : ℕ

pub data RegistryError : Type 0 where
  already_exists not_found : AgentId → RegistryError
  actor : AgentError → RegistryError

module _ {M : Type 0} (mpsc : Mpsc (AgentUpdate M)) where
  pub record AgentRegistry : Type 0 where
    pub config : AgentActorConfig
    pub agents : BTreeMap AgentHandle
    -- the tasks that run
    pub tasks : NumMap (ActorState mpsc)
    pub next_task : ℕ

  -- `AgentHandle::spawn_with_snapshot`
  abbrev pub spawn_with_snapshot : AgentSnapshot → AgentRegistry → AgentHandle × AgentRegistry
  spawn_with_snapshot s r = (
    record { agent_id = s.agent_id; command_tx = r.next_task },
    record r {
      tasks = NumMap.insert r.next_task (spawned mpsc s r.config) r.tasks;
      next_task = suc r.next_task;
    },
  )

  -- `AgentHandle::shutdown`: the task ends, if it still runs.
  abbrev pub shutdown : AgentHandle → AgentRegistry → Result AgentError (Unit {0}) × AgentRegistry
  shutdown h r = elim (NumMap.get h.command_tx r.tasks) [
    | none ↦ (err stopped, r)
    | some st ↦ (ok tt, record r { tasks = NumMap.remove h.command_tx r.tasks })
  ]

  unfoldable pub restore :
      AgentSnapshot → AgentRegistry → Result RegistryError AgentHandle × AgentRegistry
  restore s r = elim (contains_key s.agent_id r.agents) [
    | true ↦ (err (already_exists s.agent_id), r)
    | false ↦
        let (h, r') = spawn_with_snapshot s r in
        (ok h, record r' { agents = BTreeMap.insert s.agent_id h r'.agents })
  ]

  -- `AgentHandle::spawn` starts from the initial snapshot; the rest is as in `restore`.
  abbrev pub create : AgentId → AgentRegistry → Result RegistryError AgentHandle × AgentRegistry
  create agent_id r = restore (initial agent_id) r

  abbrev pub get : AgentId → AgentRegistry → Option AgentHandle
  get agent_id r = BTreeMap.get agent_id r.agents

  abbrev pub list : AgentRegistry → List AgentId
  list r = keys r.agents

  abbrev pub removed :
      Result AgentError (Unit {0}) × AgentRegistry → Result RegistryError (Unit {0}) × AgentRegistry
  removed (ok done, r) = (ok tt, r)
  removed (err e, r) = (err (actor e), r)

  unfoldable pub remove : AgentId → AgentRegistry → Result RegistryError (Unit {0}) × AgentRegistry
  remove agent_id r = elim (BTreeMap.get agent_id r.agents) [
    | none ↦ (err (not_found agent_id), r)
    | some h ↦ removed (shutdown h (record r { agents = BTreeMap.remove agent_id r.agents }))
  ]
