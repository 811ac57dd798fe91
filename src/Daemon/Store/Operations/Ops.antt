-- ===== src/Daemon/Store/Operations/Ops.antt =====
-- `claim_operation`, `complete_operation` and the recovery of the operations.
use mathlib.Core.Logic.{ite}
use omp_remote.Prelude.{
  ℕ, ℤ, Bool, true, false, Option, none, some, [], ◌∷◌, ◌++◌, Result, ok, err, ◌>>=◌, map_err,
  if◌then◌else◌,
}
use omp_remote.Prelude.BTreeMap.{contains_key}
use omp_remote.Protocol.Frame.Types.{Payloads, ControlRequest, ResponseOutcome}
use omp_remote.Daemon.Store.Types.{
  Outside, Connection, OperationRow, OperationKey, OperationStatus, pending, completed,
  indeterminate, OperationClaim, OperationError, conflicting_request, not_pending, database,
  corrupt_data,
}
use omp_remote.Daemon.Store.Columns.{sql_u64}
use omp_remote.Daemon.Store.Operations.Table.{find, update, update_all}

module _ {P : Payloads} (o : Outside P) where
  abbrev pub Row : Type 0
  Row = OperationRow o.Hash o.Blob

  abbrev pub Db : Type 0
  Db = Connection o.Hash o.Blob

  -- What is computed before the INSERT: the hash of the request and the time.
  unfoldable pub claim_params : ControlRequest P → ℕ → Result OperationError (o.Hash × ℤ)
  claim_params request now_ms =
      map_err OperationError.store (o.encode_request request) >>= λ encoded.
      map_err OperationError.store (sql_u64 now_ms "operation created_at_ms") >>= λ created.
      ok (o.hash_blob encoded, created)

  -- The row of a claim.
  abbrev pub claimed_row : OperationKey → o.Hash → ℤ → Row
  claimed_row key hash created = record {
    device_id = key.device_id;
    operation_id = key.operation_id;
    request_hash = hash;
    status = pending;
    outcome_cbor = none;
    created_at_ms = created;
    completed_at_ms = none;
  }

  unfoldable pub stored_outcome : Option o.Blob → Result OperationError OperationClaim
  stored_outcome none =
      err (OperationError.store (corrupt_data "completed operation has no outcome"))
  stored_outcome (some bytes) = map_err OperationError.store (o.decode_outcome bytes) >>= λ outcome.
      ok (OperationClaim.completed outcome)

  -- The answer for a row that was there: `match status.as_str()`.
  unfoldable pub status_claim :
      OperationStatus → Option o.Blob → Result OperationError OperationClaim
  unfolding stored_outcome
  status_claim OperationStatus.pending outcome = ok OperationClaim.in_progress
  status_claim OperationStatus.indeterminate outcome = ok OperationClaim.indeterminate
  status_claim OperationStatus.completed outcome = stored_outcome outcome

  unfoldable pub existing_claim : Row → o.Hash → Result OperationError OperationClaim
  unfolding status_claim
  existing_claim row hash =
      ite (o.Hash_discrete row.request_hash hash) (status_claim row.status row.outcome_cbor)
        (err conflicting_request)

  -- INSERT OR IGNORE and what follows. The key of a row that is there makes the INSERT do nothing;
  -- an unknown device violates the foreign key.
  unfoldable pub claim_row :
      OperationKey → o.Hash → ℤ → Db → Result OperationError OperationClaim × Db
  unfolding existing_claim
  claim_row key hash created c = elim (find key c.operations) [
    | some row ↦ (existing_claim row hash, c)
    | none ↦
        if contains_key key.device_id c.devices
        then (
          ok OperationClaim.execute,
          record c { operations = c.operations ++ claimed_row key hash created ∷ [] },
        )
        else (err (OperationError.store database), c)
  ]

  unfoldable pub claim_operation :
      OperationKey → ControlRequest P → ℕ → Db → Result OperationError OperationClaim × Db
  unfolding claim_params claim_row
  claim_operation key request now_ms c = elim (claim_params request now_ms) [
    | err e ↦ (err e, c)
    | ok (hash, created) ↦ claim_row key hash created c
  ]

  unfoldable pub complete_params : ResponseOutcome → ℕ → Result OperationError (o.Blob × ℤ)
  complete_params outcome now_ms =
      map_err OperationError.store (o.encode_outcome outcome) >>= λ encoded.
      map_err OperationError.store (sql_u64 now_ms "operation completed_at_ms") >>= λ at.
      ok (encoded, at)

  -- The UPDATE of a row, which only takes a pending one.
  abbrev pub complete_row : o.Blob → ℤ → Row → Row
  complete_row encoded at row = elim row.status [
    | OperationStatus.pending ↦ record row {
      status = completed;
      outcome_cbor = some encoded;
      completed_at_ms = some at;
    }
    | _ ↦ row
  ]

  abbrev pub is_pending : OperationStatus → Bool
  is_pending OperationStatus.pending = true
  is_pending _ = false

  unfoldable pub complete_operation :
      OperationKey → ResponseOutcome → ℕ → Db → Result OperationError (Unit {0}) × Db
  unfolding complete_params
  complete_operation key outcome now_ms c = elim (complete_params outcome now_ms) [
    | err e ↦ (err e, c)
    | ok (encoded, at) ↦ elim (find key c.operations) [
      | none ↦ (err not_pending, c)
      | some row ↦
          if is_pending row.status
          then (ok tt, record c { operations = update key (complete_row encoded at) c.operations })
          else (err not_pending, c)
    ]
  ]

  abbrev pub recover_row : Row → Row
  recover_row row = elim row.status [
    | OperationStatus.pending ↦ record row { status = indeterminate }
    | _ ↦ row
  ]

  -- The second statement of `recover_interrupted`, when the store is opened.
  unfoldable pub recover_operations : Db → Db
  recover_operations c = record c { operations = update_all recover_row c.operations }
