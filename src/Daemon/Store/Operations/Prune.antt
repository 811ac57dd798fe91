-- ===== src/Daemon/Store/Operations/Prune.antt =====
-- `prune_operations` of store.rs: it deletes the operations of a device that are older than a time,
-- and then those beyond a number of newest ones.
use omp_remote.Prelude.{
  ℕ, ℤ, pos, negsuc, Bool, true, false, some, List, Result, ok, err, ◌+◌, ◌≡◌, refl, ◌∙◌, Option,
  none, length, not, ◌||◌, ◌==◌, ltb, leb, ◌&&◌, if◌then◌else◌, String_discrete, arith,
}
use mathlib.Core.Logic.{ite}
use omp_remote.Prelude.BTreeMap.{string_lt}
use omp_remote.Protocol.Id.{DeviceId, OperationId}
use omp_remote.Protocol.Frame.Types.{Payloads}
use omp_remote.Daemon.Store.Types.{Outside, OperationRow, OperationKey, StoreError}
use omp_remote.Daemon.Store.Columns.{sql_u64}
use omp_remote.Daemon.Store.Operations.Table.{find}
use omp_remote.Daemon.Store.Operations.Delete.{
  count, delete, count-congr, count-delete, length-delete, delete-delete, AreKeyed, find-delete,
}
use omp_remote.Daemon.Store.Operations.Ops.{Db}

-- The order of SQLite's integers.
abbrev pub integer_lt : ℤ → ℤ → Bool
integer_lt (pos m) (pos n) = ltb m n
integer_lt (pos m) (negsuc n) = false
integer_lt (negsuc m) (pos n) = true
integer_lt (negsuc m) (negsuc n) = ltb n m

module _ {H B : Type 0} where
  abbrev pub of_device : DeviceId → OperationRow H B → Bool
  of_device device_id row = ite (String_discrete row.device_id device_id) true false

  abbrev pub is_old : DeviceId → ℤ → OperationRow H B → Bool
  is_old device_id cutoff row = of_device device_id row && integer_lt row.created_at_ms cutoff

  -- `ORDER BY created_at_ms DESC, operation_id DESC`: the first row comes before the second.
  abbrev pub is_newer : OperationRow H B → OperationRow H B → Bool
  is_newer a b =
      if integer_lt b.created_at_ms a.created_at_ms
      then true
      else (if integer_lt a.created_at_ms b.created_at_ms
          then false
          else string_lt b.operation_id a.operation_id)

  -- `LIMIT -1 OFFSET ?2`: as many newer rows of the device are there.
  abbrev pub is_excess : DeviceId → ℕ → List (OperationRow H B) → OperationRow H B → Bool
  is_excess device_id max_count rows row =
      of_device device_id row
      && leb max_count (count (λ r. of_device device_id r && is_newer r row) rows)

-- The operation is of the device, was made at the time or later, and comes before one that was made at
-- the second time: it was made later, or its ID is greater.
abbrev pub outranks : {H B : Type 0} → DeviceId → ℕ → ℕ → OperationId → OperationRow H B → Bool
outranks device_id older_than_ms made_at operation_id row = elim row.created_at_ms [
  | pos at ↦
      ite (String_discrete row.device_id device_id) true false
      && (leb older_than_ms at
          && (ltb made_at at || (made_at == at && string_lt operation_id row.operation_id)))
  | negsuc n ↦ false
]

-- Whether a pruning of the device's operations leaves a row of the table.
abbrev pub is_retained :
    {H B : Type 0} → DeviceId → ℕ → ℕ → List (OperationRow H B) → OperationRow H B → Bool
is_retained device_id older_than_ms max_count rows row =
    if ite (String_discrete row.device_id device_id) true false
    then (elim row.created_at_ms [
      | pos at ↦
          leb older_than_ms at
          && ltb (count (outranks device_id older_than_ms at row.operation_id) rows) max_count
      | negsuc n ↦ false
    ])
    else true

module _ {H B : Type 0} (device_id : DeviceId) (older_than_ms max_count : ℕ) where
  -- The rows before a row in the order of the query, among those that the first deletion leaves.
  newer-outranks :
      (row r : OperationRow H B) (at : ℕ)
      → row.created_at_ms ≡ pos at
      → (not (is_old device_id (pos older_than_ms) r) && (of_device device_id r && is_newer r row))
        ≡ outranks device_id older_than_ms at row.operation_id r
  newer-outranks row r at e = go r.created_at_ms refl
    where
      go :
          (z : ℤ)
          → r.created_at_ms ≡ z
          → (not (is_old device_id (pos older_than_ms) r)
              && (of_device device_id r && is_newer r row))
            ≡ outranks device_id older_than_ms at row.operation_id r
      go (pos n) f = rw (e, f) (ground arith)
      go (negsuc n) f = rw (e, f) (ground arith)

  -- A row goes by one of the deletions exactly if it is not to be retained.
  gone-retained :
      (rows : List (OperationRow H B)) (row : OperationRow H B)
      → (is_old device_id (pos older_than_ms) row
          || is_excess device_id max_count (delete (is_old device_id (pos older_than_ms)) rows) row)
        ≡ not (is_retained device_id older_than_ms max_count rows row)
  gone-retained rows row = go row.created_at_ms refl
    where
      go :
          (z : ℤ)
          → row.created_at_ms ≡ z
          → (is_old device_id (pos older_than_ms) row
              || is_excess device_id max_count
                  (delete (is_old device_id (pos older_than_ms)) rows)
                  row)
            ≡ not (is_retained device_id older_than_ms max_count rows row)
      go (pos n) f =
          let counted =
            count-delete (λ r. of_device device_id r && is_newer r row)
              (is_old device_id (pos older_than_ms)) rows
            ∙ count-congr _ (outranks device_id older_than_ms n row.operation_id) rows
                (λ r. newer-outranks row r n f) in
          rw counted (rw f (ground arith))
      go (negsuc n) f = rw f (ground arith)

  find-pruned :
      (k : OperationKey) (rows : List (OperationRow H B))
      → AreKeyed rows
      → let left = delete (is_old device_id (pos older_than_ms)) rows in
        find k (delete (is_excess device_id max_count left) left) ≡ (elim (find k rows) [
          | none ↦ none
          | some row ↦
              if is_retained device_id older_than_ms max_count rows row then some row else none
        ])
  find-pruned k rows keyed =
      let old = is_old device_id (pos older_than_ms) in
      let excess = is_excess device_id max_count (delete old rows) in
      rw (delete-delete excess old rows, find-delete k (λ r. old r || excess r) rows keyed)
        (each (find k rows))
    where
      each :
          (found : Option (OperationRow H B))
          → let left = delete (is_old device_id (pos older_than_ms)) rows in
            (elim found [
              | none ↦ none
              | some row ↦
                  if is_old device_id (pos older_than_ms) row
                    || is_excess device_id max_count left row
                  then none
                  else some row
            ])
            ≡ (elim found [
              | none ↦ none
              | some row ↦
                  if is_retained device_id older_than_ms max_count rows row then some row else none
            ])
      each none = refl
      each (some row) = rw (gone-retained rows row) (ground arith)

module _ {P : Payloads} (o : Outside P) where
  abbrev pub prune_excess : DeviceId → ℕ → ℕ → Db o → Result StoreError ℕ × Db o
  prune_excess device_id max_count old c = elim (sql_u64 max_count "operation max count") [
    | err e ↦ (err e, c)
    | ok limit ↦ (
      ok (old + count (is_excess device_id max_count c.operations) c.operations),
      record c { operations = delete (is_excess device_id max_count c.operations) c.operations },
    )
  ]

  -- The first deletion stays when the number for the second is out of range.
  unfoldable pub prune_operations : DeviceId → ℕ → ℕ → Db o → Result StoreError ℕ × Db o
  unfolding sql_u64
  prune_operations device_id older_than_ms max_count c =
      elim (sql_u64 older_than_ms "operation prune cutoff") [
        | err e ↦ (err e, c)
        | ok cutoff ↦
            prune_excess device_id max_count (count (is_old device_id cutoff) c.operations)
              (record c { operations = delete (is_old device_id cutoff) c.operations })
      ]

  -- When the pruning succeeds, what is left of the operations, and how many were there.
  prune_operations-rows :
      (device_id : DeviceId) (older_than_ms max_count n : ℕ) (c : Db o)
      → (prune_operations device_id older_than_ms max_count c).0 ≡ ok n
      → let old = is_old device_id (pos older_than_ms) in
        let left = delete old c.operations in
        ((prune_operations device_id older_than_ms max_count c).1.operations
          ≡ delete (is_excess device_id max_count left) left)
        × (n ≡ count old c.operations + count (is_excess device_id max_count left) left)
  unfolding prune_operations sql_u64
  prune_operations-rows device_id older_than_ms max_count n c h = (ground arith, ground arith)

  -- When the pruning of a device's operations succeeds, over a table in which no two rows have the
  -- same key, the store finds under each key what it found before, except for operations of the
  -- device that were made before the time, and for those that as many others as the number
  -- outrank, which were made at the time or later; these it does not find any more. The result is
  -- the number of the rows that are gone.
  pub prune_operations_exact :
      (device_id : DeviceId) (older_than_ms max_count n : ℕ) (c : Db o) (k : OperationKey)
      → AreKeyed c.operations
      → (prune_operations device_id older_than_ms max_count c).0 ≡ ok n
      → (find k (prune_operations device_id older_than_ms max_count c).1.operations
          ≡ (elim (find k c.operations) [
            | none ↦ none
            | some row ↦
                if is_retained device_id older_than_ms max_count c.operations row
                then some row
                else none
          ]))
        × (n + length (prune_operations device_id older_than_ms max_count c).1.operations
            ≡ length c.operations)
  prune_operations_exact device_id older_than_ms max_count n c k keyed done =
      let old = is_old device_id (pos older_than_ms) in
      let left = delete old c.operations in
      let excess = is_excess device_id max_count left in
      let (rows, number) = prune_operations-rows device_id older_than_ms max_count n c done in
      let first = length-delete old c.operations in
      let second = length-delete excess left in
      (
        rw rows (find-pruned device_id older_than_ms max_count k c.operations keyed),
        rw (rows, number) (omega arith),
      )
