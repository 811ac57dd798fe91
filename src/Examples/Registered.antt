-- ===== src/Examples/Registered.antt =====
-- Runs of the registry of crates/omp-control-plane.
use omp_remote.Prelude.{[], ◌∷◌}
use omp_remote.Prelude.BTreeMap.{get}
use omp_remote.Plane.Registry.{AgentRegistry}
use omp_remote.Plane.Registry.Alive.{
  create_call, remove_call, perform_all, IsAlive, perform_all-IsAlive,
}
use omp_remote.Examples.Data.{channels}

abbrev no_agents : AgentRegistry channels
no_agents = record {
  config = record { replay_capacity = 4; subscriber_capacity = 2 };
  agents = [];
  tasks = [];
  next_task = 0;
}

no_agents-IsAlive : IsAlive channels no_agents
unfolding get
no_agents-IsAlive id h g = cc

registry_example :
    IsAlive channels
      (perform_all channels (create_call "a" ∷ create_call "b" ∷ remove_call "a" ∷ []) no_agents)
registry_example =
    perform_all-IsAlive channels (create_call "a" ∷ create_call "b" ∷ remove_call "a" ∷ [])
      no_agents no_agents-IsAlive
