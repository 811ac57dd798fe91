-- ===== src/Daemon/Store/Recovery.antt =====
-- `recover_interrupted` of store.rs, which runs when the store is opened: what a daemon that died
-- left in the middle is marked as such.
use omp_remote.Prelude.{
  ℕ, ℤ, String, ◌≡◌, ◌≢◌, ◌⊎◌, refl, sym, ap, subst, Bool, true, false, ◌||◌, Option, none, some,
  List, [], ◌∷◌, Result, ok, err, arith, if◌then◌else◌, Bool-cases, Result-cases, inl, inr,
  ok-injective, String_discrete,
}
use omp_remote.Prelude.BTreeMap
use omp_remote.Prelude.BTreeMap.{BTreeMap}
use omp_remote.Protocol.Id.{AgentId}
use omp_remote.Protocol.Frame.Types.{Payloads}
use omp_remote.Daemon.Store.Types.{Outside, AgentRow, OperationKey, OperationStatus, StoreError}
use omp_remote.Daemon.Store.Columns.{sql_u64, same}
use omp_remote.Daemon.Store.Operations.Table.{find, update_all, KeepsKey, find-update_all}
use omp_remote.Daemon.Store.Operations.Ops.{Db, Row, recover_row, recover_operations}

-- `lifecycle IN ('starting', 'running', 'stopping')`.
abbrev is_live : String → Bool
is_live lifecycle =
    same lifecycle "starting" || same lifecycle "running" || same lifecycle "stopping"

-- The first UPDATE, of a row.
unfoldable pub recover_agent : ℤ → AgentRow → AgentRow
recover_agent now row =
    if is_live row.lifecycle
    then record row {
      lifecycle = "interrupted";
      failure_reason = none;
      process_id = none;
      active_run_id = none;
      updated_at_ms = now;
    }
    else row

unfoldable pub recover_agents : ℤ → BTreeMap AgentRow → BTreeMap AgentRow
unfolding recover_agent
recover_agents now [] = []
recover_agents now ((id, row) ∷ rows) = (id, recover_agent now row) ∷ recover_agents now rows

-- The agent is neither starting nor running nor stopping.
abbrev pub IsStill : AgentRow → Type 0
IsStill row =
    (row.lifecycle ≢ "starting") × (row.lifecycle ≢ "running") × (row.lifecycle ≢ "stopping")

-- The row is the one before, or that of an agent that was interrupted, without a process and a run,
-- which was not still.
abbrev pub IsKeptOrInterrupted : AgentRow → AgentRow → Type 0
IsKeptOrInterrupted before row =
    (before ≡ row)
    ⊎ ((¬ IsStill before)
        × (row.lifecycle ≡ "interrupted")
        × (row.process_id ≡ none)
        × (row.active_run_id ≡ none))

-- An agent after the recovery, beside what it was before: it is there if it was there.
abbrev pub IsAtRest : Option AgentRow → Option AgentRow → Type 0
IsAtRest none none = Unit
IsAtRest (some before) (some row) = IsStill row × IsKeptOrInterrupted before row
IsAtRest _ _ = ⊥

still : (row : AgentRow) → is_live row.lifecycle ≡ false → IsStill row
still row h = (ground arith, ground arith, ground arith)

interrupted-IsStill : (row : AgentRow) → row.lifecycle ≡ "interrupted" → IsStill row
unfolding String_discrete
interrupted-IsStill row h = still row (rw h refl)

live_moves : (row : AgentRow) → is_live row.lifecycle ≡ true → ¬ IsStill row
unfolding String_discrete
live_moves row h s = ground (arith, s.0, s.1, s.2)

recover_agent_settled :
    (now : ℤ) (before row : AgentRow)
    → recover_agent now before ≡ row
    → IsStill row × IsKeptOrInterrupted before row
unfolding recover_agent
recover_agent_settled now before row h = elim (Bool-cases (is_live before.lifecycle)) [
  | inl live ↦
      let e = rw (live, recover_agent) at h in
      let named : row.lifecycle ≡ "interrupted" = ap (λ r. r.lifecycle) (sym e) in
      (
        interrupted-IsStill row named,
        inr (
          live_moves before live,
          named,
          ap (λ r. r.process_id) (sym e),
          ap (λ r. r.active_run_id) (sym e),
        ),
      )
  | inr idle ↦
      let e : before ≡ row = rw (idle, recover_agent) at h in
      (subst IsStill e (still before idle), inl e)
]

get-recover_agents :
    (now : ℤ) (id : AgentId) (rows : BTreeMap AgentRow)
    → BTreeMap.get id (recover_agents now rows)
      ≡ (elim (BTreeMap.get id rows) [ none ↦ none | some row ↦ some (recover_agent now row) ])
unfolding recover_agents BTreeMap.get
get-recover_agents now id [] = refl
get-recover_agents now id ((j, row) ∷ rows) = ground (arith, get-recover_agents now id rows)

module _ {P : Payloads} (o : Outside P) where
  unfoldable pub recover_interrupted : ℕ → Db o → Result StoreError (Db o)
  unfolding recover_agents recover_operations
  recover_interrupted now_ms c = elim (sql_u64 now_ms "recovery timestamp") [
    | err e ↦ err e
    | ok now ↦ ok (recover_operations o (record c { agents = recover_agents now c.agents }))
  ]

  recover_row-KeepsKey : KeepsKey (recover_row o)
  recover_row-KeepsKey row = ground arith

  -- An operation after the recovery, beside what it was before: one that was pending is
  -- indeterminate, and any other is as it was.
  abbrev pub IsNotPending : Option (Row o) → Option (Row o) → Type 0
  IsNotPending none none = Unit
  IsNotPending (some before) (some row) =
      (row.status ≢ OperationStatus.pending)
      × (((before.status ≢ OperationStatus.pending) × (before ≡ row))
          ⊎ ((before.status ≡ OperationStatus.pending)
              × (record before { status = OperationStatus.indeterminate } ≡ row)))
  IsNotPending _ _ = ⊥

  recover_row_settled :
      (row : Row o) (status : OperationStatus)
      → row.status ≡ status
      → IsNotPending (some row) (some (recover_row o row))
  recover_row_settled row OperationStatus.pending e = rw (e) (λ h. cc, inr (refl, refl))
  recover_row_settled row OperationStatus.completed e = rw (e) (λ h. cc, inl (λ h. cc, refl))
  recover_row_settled row OperationStatus.indeterminate e = rw (e) (λ h. cc, inl (λ h. cc, refl))

  agents_settled :
      (now : ℤ) (id : AgentId) (rows : BTreeMap AgentRow)
      → IsAtRest (BTreeMap.get id rows) (BTreeMap.get id (recover_agents now rows))
  agents_settled now id rows = rw (get-recover_agents now id rows) (each (BTreeMap.get id rows))
    where
      each :
          (before : Option AgentRow)
          → IsAtRest before (elim before [ none ↦ none | some row ↦ some (recover_agent now row) ])
      each none = tt
      each (some before) = recover_agent_settled now before (recover_agent now before) refl

  operations_settled :
      (k : OperationKey) (rows : List (Row o))
      → IsNotPending (find k rows) (find k (update_all (recover_row o) rows))
  operations_settled k rows =
      rw (find-update_all k (recover_row o) rows recover_row-KeepsKey) (each (find k rows))
    where
      each :
          (before : Option (Row o))
          → IsNotPending before (elim before [ none ↦ none | some row ↦ some (recover_row o row) ])
      each none = tt
      each (some before) = recover_row_settled before before.status refl

  -- After a recovery without an error no agent is starting, running or stopping, and no operation
  -- is pending. Every agent is still there, with the row that it had before, or it was starting,
  -- running or stopping, and is interrupted, without a process and a run. Every operation is there
  -- too: one that was pending is indeterminate, and any other is as it was.
  pub recover_interrupted_settled :
      (now_ms : ℕ) (c c' : Db o) (id : AgentId) (k : OperationKey)
      → recover_interrupted now_ms c ≡ ok c'
      → IsAtRest (BTreeMap.get id c.agents) (BTreeMap.get id c'.agents)
        × IsNotPending (find k c.operations) (find k c'.operations)
  unfolding recover_interrupted recover_operations
  recover_interrupted_settled now_ms c c' id k h =
      elim (Result-cases (sql_u64 now_ms "recovery timestamp")) [
        | inr (e, x) ↦ cc (rw (x, recover_interrupted) at h)
        | inl (now, x) ↦
            let e = ok-injective (rw (x, recover_interrupted) at h) in
            subst
              (λ d.
                IsAtRest (BTreeMap.get id c.agents) (BTreeMap.get id d.agents)
                × IsNotPending (find k c.operations) (find k d.operations))
              e (agents_settled now id c.agents, operations_settled k c.operations)
      ]
