-- ===== src/Daemon/Controller/Resumed.antt =====
-- What `DaemonController::new` of crates/ompd/src/controller.rs makes of what the store has.
pub mod Continued
use mathlib.Core.Logic.{ite}
use omp_remote.Prelude.{
  ◌≡◌, ◌<◌, ◌⊎◌, refl, sym, ◌∙◌, ap, subst, Option, none, some, List, [], ◌∷◌, Result, ok, err,
  ◌>>=◌, false, arith, inl, inr, Result-cases, String_discrete, transpose, >>=-eq-ok, ok-injective,
}
use omp_remote.Prelude.BTreeMap
use omp_remote.Prelude.BTreeMap.{BTreeMap, contains_key, get-insert}
use omp_remote.Prelude.NumMap
use omp_remote.Protocol.Id.{AgentId}
use omp_remote.Protocol.State.{AgentSnapshot, AgentUpdate}
use omp_remote.Protocol.Frame.Types.{Payloads}
use omp_remote.Plane.Mpsc.{Mpsc}
use omp_remote.Plane.Actor.Types.{AgentActorConfig, ActorState}
use omp_remote.Plane.Actor.Loop.{spawned}
use omp_remote.Plane.Registry.{
  AgentHandle, AgentRegistry, RegistryError, restore, spawn_with_snapshot,
}
use omp_remote.Daemon.Store.Types.{Outside, AgentRecord, AgentRow, SessionResumeRecord}
use omp_remote.Daemon.Store.Operations.Ops.{Db}
use omp_remote.Daemon.Store.Agents.{agent, agents, session, decode_agent, decode_agents}
use omp_remote.Daemon.Controller.Types.{System, Channels, World, RuntimeConfig}
use omp_remote.Daemon.Controller.Records.{resumed, resume_all, recovered}
use omp_remote.Daemon.Controller.Lifecycle.{restore_all, start, new}
use omp_remote.Daemon.Controller.Resumed.Continued.{
  IsIdle, Continues, resumed-IsIdle, resumed-Continues,
}

abbrev pub In : {A : Type 0} → A → List A → Type 0
In a [] = ⊥
In a (x ∷ xs) = (a ≡ x) ⊎ In a xs

module _ {M : Type 0} (mpsc : Mpsc (AgentUpdate M)) where
  -- The registry has a handle of the agent, whose task runs in this state.
  pub record Has (r : AgentRegistry mpsc) (id : AgentId) (st : ActorState mpsc) : Type 0 where
    pub handle : AgentHandle
    pub found : BTreeMap.get id r.agents ≡ some handle
    pub started : handle.command_tx < r.next_task
    pub running : NumMap.get handle.command_tx r.tasks ≡ some st

  -- A task that has had no command: nothing to replay, no subscribers and no lease.
  pub record IsFresh (config : AgentActorConfig) (st : ActorState mpsc) : Type 0 where
    pub log : st.replay ≡ []
    pub capacity : st.replay_capacity ≡ config.replay_capacity
    pub channels : st.subscriber_capacity ≡ config.subscriber_capacity
    pub subscribers : st.subscribers ≡ []
    pub dropped : st.detached ≡ []
    pub lease : st.lease_deadline ≡ none

  spawned-IsFresh :
      (s : AgentSnapshot) (config : AgentActorConfig) → IsFresh config (spawned mpsc s config)
  spawned-IsFresh s config = record {
    log = refl;
    capacity = refl;
    channels = refl;
    subscribers = refl;
    dropped = refl;
    lease = refl;
  }

  -- A snapshot that is restored was of no agent of the registry.
  module _ (s : AgentSnapshot) (r : AgentRegistry mpsc) (h : AgentHandle)
      (done : (restore mpsc s r).0 ≡ ok h) where
    fresh : contains_key s.agent_id r.agents ≡ false
    unfolding restore
    fresh = ground (arith, done)

    abbrev restored : AgentRegistry mpsc
    restored = record (spawn_with_snapshot mpsc s r).1 {
      agents = BTreeMap.insert s.agent_id (spawn_with_snapshot mpsc s r).0 r.agents;
    }

    restore-restored : (restore mpsc s r).1 ≡ restored
    unfolding restore
    restore-restored = rw (fresh, restore) refl

    restored-new : Has restored s.agent_id (spawned mpsc s r.config)
    restored-new = record {
      handle = (spawn_with_snapshot mpsc s r).0;
      found = BTreeMap.get-insert_same s.agent_id (spawn_with_snapshot mpsc s r).0 r.agents;
      started = omega arith;
      running =
          NumMap.get-insert r.next_task r.next_task (spawned mpsc s r.config) r.tasks
          ∙ ground arith;
    }

    restored-old : (id : AgentId) (st : ActorState mpsc) → Has r id st → Has restored id st
    restored-old id st o = record {
      handle = o.handle;
      found =
          get-insert s.agent_id id (spawn_with_snapshot mpsc s r).0 r.agents
          ∙ ground (arith, o.found, fresh);
      started = omega (arith, o.started);
      running =
          NumMap.get-insert r.next_task o.handle.command_tx (spawned mpsc s r.config) r.tasks
          ∙ ground (arith, o.running, o.started);
    }

module _ {P : Payloads} (o : Outside P) (mpsc : Channels P) (x : System P) where
  abbrev restore_rest :
      List AgentSnapshot → AgentRegistry mpsc → Result RegistryError (Unit {0}) × AgentRegistry mpsc
  restore_rest = restore_all o mpsc x

  -- When a list is restored without an error, so was its first snapshot, and then the rest.
  restore_all-cons :
      (s : AgentSnapshot) (rest : List AgentSnapshot) (r : AgentRegistry mpsc)
      → (restore_rest (s ∷ rest) r).0 ≡ ok tt
      → (h : AgentHandle) × ((restore mpsc s r).0 ≡ ok h)
        × (restore_rest (s ∷ rest) r ≡ restore_rest rest (restore mpsc s r).1)
  unfolding restore_all
  restore_all-cons s rest r done = elim (Result-cases (restore mpsc s r).0) [
    | inl (h, e) ↦ (h, e, rw (e, restore_all) refl)
    | inr (f, e) ↦ cc (rw (e, restore_all) at done)
  ]

  restore_all-old :
      (ss : List AgentSnapshot) (r : AgentRegistry mpsc) (id : AgentId) (st : ActorState mpsc)
      → (restore_rest ss r).0 ≡ ok tt
      → Has mpsc r id st
      → Has mpsc (restore_rest ss r).1 id st
  restore_all-old [] r id st done has = unfold restore_all in has
  restore_all-old (s ∷ ss) r id st done has =
      let (h, e, same) = restore_all-cons s ss r done in
      subst (λ y. Has mpsc y.1 id st) (sym same)
        (restore_all-old ss (restore mpsc s r).1 id st (ap (λ y. y.0) (sym same) ∙ done) (
          subst (λ y. Has mpsc y id st) (sym (restore-restored mpsc s r h e))
            (restored-old mpsc s r h e id st has)))

  -- Each snapshot of a list that is restored without an error is the state of its agent's task.
  restore_all-each :
      (ss : List AgentSnapshot) (r : AgentRegistry mpsc) (s : AgentSnapshot)
      → (restore_rest ss r).0 ≡ ok tt
      → In s ss
      → Has mpsc (restore_rest ss r).1 s.agent_id (spawned mpsc s r.config)
  restore_all-each [] r s done m = absurd m
  restore_all-each (t ∷ ss) r s done m =
      let (h, e, same) = restore_all-cons t ss r done in
      let r' = restored mpsc t r h e in
      let back = restore-restored mpsc t r h e in
      let later : (restore_rest ss r').0 ≡ ok tt =
        ap (λ y. (restore_rest ss y).0) (sym back) ∙ ap (λ y. y.0) (sym same) ∙ done in
      subst (λ y. Has mpsc y.1 s.agent_id (spawned mpsc s r.config))
        (sym (same ∙ ap (restore_rest ss) back))
        (elim m [
          | inl here ↦ restore_all-old ss r' s.agent_id (spawned mpsc s r.config) later (
              subst (λ u. Has mpsc r' u.agent_id (spawned mpsc u r.config)) (sym here)
                (restored-new mpsc t r h e))
          | inr there ↦ restore_all-each ss r' s later there
        ])

  -- What is found for an ID is the first row or a later one.
  at_head :
      (id j : AgentId) (row : AgentRow) (m : BTreeMap AgentRow) (a first : AgentRecord)
      (rest : List AgentRecord) (t : Dec (id ≡ j))
      → decode_agent j row ≡ ok first
      → (transpose (decode_agent id) (BTreeMap.get id m) ≡ ok (some a) → In a rest)
      → transpose (decode_agent id) (ite t (some row) (BTreeMap.get id m)) ≡ ok (some a)
      → In a (first ∷ rest)
  at_head id j row m a first rest (yes p) e earlier one =
      let whole = subst (λ k. (decode_agent k row >>= λ b. ok (some b)) ≡ ok (some a)) p one in
      inl (cc (rw e at whole))
  at_head id j row m a first rest (no n) e earlier one = inr (earlier one)

  -- The store's list of agents has each of them.
  decode_agents-In :
      (m : BTreeMap AgentRow) (records : List AgentRecord) (id : AgentId) (a : AgentRecord)
      → decode_agents o m ≡ ok records
      → transpose (decode_agent id) (BTreeMap.get id m) ≡ ok (some a)
      → In a records
  unfolding BTreeMap.get
  decode_agents-In [] records id a all one = cc
  decode_agents-In ((j, row) ∷ m) records id a all one =
      let (first, e, all') = >>=-eq-ok (decode_agent j row) _ all in
      let (rest, f, g) = >>=-eq-ok (decode_agents o m) _ all' in
      let earlier = decode_agents-In m rest id a f in
      subst (In a) (ok-injective g)
        (at_head id j row m a first rest (String_discrete id j) e earlier one)

  resume_all-In :
      (records : List AgentRecord) (c : Db o) (snapshots : List AgentSnapshot) (a : AgentRecord)
      → resume_all o records c ≡ ok snapshots
      → In a records
      → (s : Option SessionResumeRecord) × (session o a.agent_id c ≡ ok s)
        × In (resumed a s) snapshots
  resume_all-In [] c snapshots a all m = absurd m
  resume_all-In (b ∷ records) c snapshots a all m =
      let (s, e, all') = >>=-eq-ok (session o b.agent_id c) _ all in
      let (rest, f, g) = >>=-eq-ok (resume_all o records c) _ all' in
      let whole : resumed b s ∷ rest ≡ snapshots = ok-injective g in
      elim m [
        | inl here ↦ (
          s,
          subst (λ b. session o b.agent_id c ≡ ok s) (sym here) e,
          subst (In (resumed a s)) whole (inl (ap (λ y. resumed y s) here)),
        )
        | inr there ↦
            let (s', e', i) = resume_all-In records c rest a f there in
            (s', e', subst (In (resumed a s')) whole (inr i))
      ]

  start-ok :
      (config : RuntimeConfig) (store : Db o) (system : x.State) (w : World o mpsc x)
      (r' : AgentRegistry mpsc) (y : Result RegistryError (Unit {0}) × AgentRegistry mpsc)
      → start o mpsc x config store system y ≡ (ok w, r')
      → (y.0 ≡ ok tt) × (y.1 ≡ w.registry)
  start-ok config store system w r' (err e, r) h = cc
  start-ok config store system w r' (ok _, r) h =
      (refl, ap (λ z. elim z.0 [ ok v ↦ v.registry | err e ↦ r ]) h)

  -- When a controller starts without an error, each agent of the store has a task in the registry,
  -- which runs and has had no command yet. Its snapshot has the lifecycle of the agent's record,
  -- and the revision, the event sequence and the file of the session that the store has of it, if
  -- any; it has no run, and nobody holds its interaction.
  pub new-resumed :
      (r r' : AgentRegistry mpsc) (config : RuntimeConfig) (store : Db o) (system : x.State)
      (w : World o mpsc x) (a : AgentRecord)
      → new o mpsc x r config store system ≡ (ok w, r')
      → agent o a.agent_id store ≡ ok (some a)
      → (s : Option SessionResumeRecord) × (st : ActorState mpsc) × (session o a.agent_id store
          ≡ ok s)
        × Has mpsc w.registry a.agent_id st
        × IsFresh mpsc r.config st
        × IsIdle a st.snapshot
        × Continues s st.snapshot
  unfolding new recovered agent
  new-resumed r r' config store system w a made stored = elim (Result-cases (recovered o store)) [
    | inr (e, failed) ↦ cc (rw (failed, new) at made)
    | inl (snapshots, all) ↦
        let (records, e, f) = >>=-eq-ok (agents o store) _ all in
        let (done, same) =
          start-ok config store system w r' (restore_rest snapshots r) (rw (all, new) at made) in
        let (s, g, i) =
          resume_all-In records store snapshots a f
            (decode_agents-In store.agents records a.agent_id a e stored) in
        (
          s,
          spawned mpsc (resumed a s) r.config,
          g,
          subst (λ y. Has mpsc y a.agent_id (spawned mpsc (resumed a s) r.config)) same
              (restore_all-each snapshots r (resumed a s) done i),
          spawned-IsFresh mpsc (resumed a s) r.config,
          resumed-IsIdle a s,
          resumed-Continues a s,
        )
  ]
