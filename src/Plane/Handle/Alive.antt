-- ===== src/Plane/Handle/Alive.antt =====
-- The tasks behind the handles of a registry, when the handles of crates/omp-control-plane/src/actor.rs
-- are used.
use omp_remote.Prelude.{
  ◌≡◌, refl, none, some, arith, inl, inr, Option-cases, Result, ◌==◌, Bool-cases, sym, ◌∙◌, ap,
  true, subst,
}
use omp_remote.Prelude.NumMap
use omp_remote.Protocol.Id.{AgentId}
use omp_remote.Protocol.State.{AgentUpdate}
use omp_remote.Plane.Mpsc.{Mpsc}
use omp_remote.Plane.Actor.Types.{AgentError, ActorState, ActorCommand, Clock, Reply}
use omp_remote.Plane.Actor.Loop.{handle}
use omp_remote.Plane.Registry.{AgentHandle, AgentRegistry}
use omp_remote.Plane.Registry.Alive.{IsOwned, IsAlive}
use omp_remote.Plane.Handle.{ask, settle, has_panicked}
use omp_remote.Plane.Handle.Owner.{handle-IsSteady}

module _ {M : Type 0} (mpsc : Mpsc (AgentUpdate M)) where
  module _ (clock : Clock) (h : AgentHandle) where
    -- What is left where the task did not panic.
    settle-put :
        (reply : Reply M) (st : ActorState mpsc) (r : AgentRegistry mpsc)
        → has_panicked reply ≡ none
        → settle mpsc clock h (reply, st) r
          ≡ record r { tasks = NumMap.insert h.command_tx st r.tasks }
    settle-put reply st r e = rw (e, settle) refl

    put-IsAlive :
        (st st' : ActorState mpsc) (r : AgentRegistry mpsc)
        → NumMap.get h.command_tx r.tasks ≡ some st
        → st'.snapshot.agent_id ≡ st.snapshot.agent_id
        → IsAlive mpsc r
        → IsAlive mpsc (record r { tasks = NumMap.insert h.command_tx st' r.tasks })
    put-IsAlive st st' r e same a = λ id g f.
        let o = a id g f in
        let lookup = NumMap.get-insert h.command_tx g.command_tx st' r.tasks in
        elim (Bool-cases (g.command_tx == h.command_tx)) [
          | inl hit ↦ record {
            named = o.named;
            started = o.started;
            state = st';
            running = lookup ∙ rw hit refl;
            owning = same ∙ owner id g o hit;
          }
          | inr miss ↦ record {
            named = o.named;
            started = o.started;
            state = o.state;
            running = lookup ∙ rw miss o.running;
            owning = o.owning;
          }
        ]
      where
        owner :
            (id : AgentId) (g : AgentHandle) (o : IsOwned mpsc r id g)
            → (g.command_tx == h.command_tx) ≡ true
            → st.snapshot.agent_id ≡ id
        owner id g o hit =
            let tx : g.command_tx ≡ h.command_tx = ground arith in
            let states : some st ≡ some o.state =
              sym e ∙ ap (λ x. NumMap.get x r.tasks) (sym tx) ∙ o.running in
            ap (λ x. elim x [ none ↦ "" | some st ↦ st.snapshot.agent_id ]) states ∙ o.owning

  -- A command through a handle leaves each handle of the registry with its task, which still owns
  -- its agent's state.
  pub ask-IsAlive :
      {A : Type 0} (clock : Clock) (h : AgentHandle) (read : Reply M → Result AgentError A)
      (c : ActorCommand M) (r : AgentRegistry mpsc)
      → IsAlive mpsc r
      → IsAlive mpsc (ask mpsc clock h read c r).1
  unfolding ask
  ask-IsAlive clock h read c r a = elim (Option-cases (NumMap.get h.command_tx r.tasks)) [
    | inl e ↦ rw (e, ask) a
    | inr (st, e) ↦
        let steady = handle-IsSteady mpsc st clock c in
        let (reply, st') = handle mpsc st clock c in
        rw (e, ask)
          (subst (IsAlive mpsc) (sym (settle-put clock h reply st' r steady.1))
            (put-IsAlive clock h st st' r e steady.0 a))
  ]
