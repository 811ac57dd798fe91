-- ===== src/Plane/Registry/Alive.antt =====
-- The tasks behind the handles of crates/omp-control-plane/src/registry.rs.
use mathlib.Core.Logic.{ite}
use omp_remote.Prelude.{
  ◌<◌, ◌≡◌, ◌≢◌, refl, none, some, List, [], ◌∷◌, arith, inl, inr, Bool-cases, Option-cases,
  String_discrete, ap, sym, ◌∙◌, subst,
}
use omp_remote.Prelude.BTreeMap
use omp_remote.Prelude.BTreeMap.{contains_key, get-insert, get-remove}
use omp_remote.Prelude.NumMap
use omp_remote.Protocol.Id.{AgentId}
use omp_remote.Protocol.State.{AgentSnapshot, AgentUpdate, initial}
use omp_remote.Plane.Mpsc.{Mpsc}
use omp_remote.Plane.Actor.Types.{ActorState}
use omp_remote.Plane.Actor.Loop.{spawned}
use omp_remote.Plane.Registry.{
  AgentHandle, AgentRegistry, spawn_with_snapshot, shutdown, restore, create, remove,
}

-- What is asked of a registry.
pub data Call : Type 0 where
  create_call remove_call : AgentId → Call
  restore_call : AgentSnapshot → Call

module _ {M : Type 0} (mpsc : Mpsc (AgentUpdate M)) where
  abbrev pub perform : Call → AgentRegistry mpsc → AgentRegistry mpsc
  perform (create_call agent_id) r = (create mpsc agent_id r).1
  perform (restore_call s) r = (restore mpsc s r).1
  perform (remove_call agent_id) r = (remove mpsc agent_id r).1

  abbrev pub perform_all : List Call → AgentRegistry mpsc → AgentRegistry mpsc
  perform_all [] r = r
  perform_all (c ∷ cs) r = perform_all cs (perform c r)

  -- The handle under an ID is one of that agent, and its task runs and owns that agent's state.
  pub record IsOwned (r : AgentRegistry mpsc) (id : AgentId) (h : AgentHandle) : Type 0 where
    pub named : h.agent_id ≡ id
    pub started : h.command_tx < r.next_task
    pub state : ActorState mpsc
    pub running : NumMap.get h.command_tx r.tasks ≡ some state
    pub owning : state.snapshot.agent_id ≡ id

  abbrev pub IsAlive : AgentRegistry mpsc → Type 0
  IsAlive r = (id : AgentId) (h : AgentHandle) → BTreeMap.get id r.agents ≡ some h → IsOwned r id h

  restored-IsAlive :
      (s : AgentSnapshot) (r : AgentRegistry mpsc) → IsAlive r → IsAlive (restore mpsc s r).1
  unfolding restore
  restored-IsAlive s r a = elim (Bool-cases (contains_key s.agent_id r.agents)) [
    | inl e ↦ rw (e, restore) a
    | inr e ↦ rw (e, restore) added
  ]
    where
      new : AgentHandle
      new = record { agent_id = s.agent_id; command_tx = r.next_task }

      later : AgentRegistry mpsc
      later = record (spawn_with_snapshot mpsc s r).1 {
        agents = BTreeMap.insert s.agent_id new r.agents;
      }

      owned_new : IsOwned later s.agent_id new
      owned_new = record {
        named = refl;
        started = omega arith;
        state = spawned mpsc s r.config;
        running =
            NumMap.get-insert r.next_task r.next_task (spawned mpsc s r.config) r.tasks
            ∙ ground arith;
        owning = refl;
      }

      owned_old : (id : AgentId) (h : AgentHandle) → IsOwned r id h → IsOwned later id h
      owned_old id h o = record {
        named = o.named;
        started = omega (arith, o.started);
        state = o.state;
        running =
            NumMap.get-insert r.next_task h.command_tx (spawned mpsc s r.config) r.tasks
            ∙ ground (arith, o.running, o.started);
        owning = o.owning;
      }

      go :
          (id : AgentId) (h : AgentHandle) (t : Dec (id ≡ s.agent_id))
          → ite t (some new) (BTreeMap.get id r.agents) ≡ some h
          → IsOwned later id h
      go id h (yes p) e =
          let same : new ≡ h = ap (λ o. elim o [ none ↦ new | some x ↦ x ]) e in
          subst (λ x. IsOwned later id x) same (subst (λ x. IsOwned later x new) (sym p) owned_new)
      go id h (no n) e = owned_old id h (a id h e)

      added : IsAlive later
      added id h g =
          go id h (String_discrete id s.agent_id) (sym (get-insert s.agent_id id new r.agents) ∙ g)

  module _ (agent_id : AgentId) (r : AgentRegistry mpsc) (a : IsAlive r) where
    -- What is left under the other IDs.
    left :
        (id : AgentId) (h : AgentHandle)
        → BTreeMap.get id (BTreeMap.remove agent_id r.agents) ≡ some h
        → (id ≢ agent_id) × IsOwned r id h
    left id h g = go (String_discrete id agent_id) (sym (get-remove agent_id id r.agents) ∙ g)
      where
        go :
            (t : Dec (id ≡ agent_id))
            → ite t none (BTreeMap.get id r.agents) ≡ some h
            → (id ≢ agent_id) × IsOwned r id h
        go (yes p) e = cc
        go (no n) e = (n, a id h e)

    -- The task of one agent is not that of another.
    apart :
        (id : AgentId) (h g : AgentHandle)
        → id ≢ agent_id
        → IsOwned r id h
        → IsOwned r agent_id g
        → h.command_tx ≢ g.command_tx
    apart id h g n o q same =
        let states : some o.state ≡ some q.state =
          sym o.running ∙ ap (λ x. NumMap.get x r.tasks) same ∙ q.running in
        n (
          sym o.owning
          ∙ ap (λ x. elim x [ none ↦ "" | some st ↦ st.snapshot.agent_id ]) states
          ∙ q.owning)

    removed-IsAlive : IsAlive (remove mpsc agent_id r).1
    unfolding remove
    removed-IsAlive = elim (Option-cases (BTreeMap.get agent_id r.agents)) [
      | inl e ↦ rw (e, remove) a
      | inr (g, e) ↦
          let q = a agent_id g e in
          rw (e, q.running, remove, shutdown)
            (λ id h f.
              let (n, o) = left id h f in
              record {
                named = o.named;
                started = o.started;
                state = o.state;
                running =
                    NumMap.get-remove g.command_tx h.command_tx r.tasks
                    ∙ ground (arith, o.running, apart id h g n o q);
                owning = o.owning;
              })
    ]

  -- Whatever is asked of a registry in which every handle under an ID is one of that agent, and
  -- has a running task of its own that owns that agent's state, this holds of it afterwards.
  pub perform_all-IsAlive :
      (calls : List Call) (r : AgentRegistry mpsc) → IsAlive r → IsAlive (perform_all calls r)
  perform_all-IsAlive [] r a = a
  perform_all-IsAlive (create_call agent_id ∷ calls) r a =
      perform_all-IsAlive calls (create mpsc agent_id r).1 (restored-IsAlive (initial agent_id) r a)
  perform_all-IsAlive (restore_call s ∷ calls) r a =
      perform_all-IsAlive calls (restore mpsc s r).1 (restored-IsAlive s r a)
  perform_all-IsAlive (remove_call agent_id ∷ calls) r a =
      perform_all-IsAlive calls (remove mpsc agent_id r).1 (removed-IsAlive agent_id r a)
