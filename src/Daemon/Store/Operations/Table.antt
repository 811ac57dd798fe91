-- ===== src/Daemon/Store/Operations/Table.antt =====
-- The table `operations`, whose key is a device with an operation ID.
use mathlib.Core.Logic.{ite}
use omp_remote.Prelude.{
  ◌≡◌, refl, Option, none, some, List, [], ◌∷◌, ◌++◌, String_discrete, Bool, true, false, ◌&&◌,
  arith, if◌then◌else◌, Bool-cases, inl, inr,
}
use omp_remote.Daemon.Store.Types.{OperationRow, OperationKey}

module _ {H B : Type 0} where
  -- `device_id = ?1 AND operation_id = ?2`.
  abbrev pub has_key : OperationKey → OperationRow H B → Bool
  has_key key row =
      ite (String_discrete row.device_id key.device_id) true false
      && ite (String_discrete row.operation_id key.operation_id) true false

  unfoldable pub find : OperationKey → List (OperationRow H B) → Option (OperationRow H B)
  find key [] = none
  find key (row ∷ rows) = if has_key key row then some row else find key rows

  -- Updates the rows with the key.
  unfoldable pub update :
      OperationKey
      → (OperationRow H B → OperationRow H B)
      → List (OperationRow H B)
      → List (OperationRow H B)
  update key f [] = []
  update key f (row ∷ rows) = (if has_key key row then f row else row) ∷ update key f rows

  -- Updates all rows.
  unfoldable pub update_all :
      (OperationRow H B → OperationRow H B) → List (OperationRow H B) → List (OperationRow H B)
  update_all f [] = []
  update_all f (row ∷ rows) = f row ∷ update_all f rows

  -- A new row that has the key is found, if none had it before.
  pub find-snoc :
      (key : OperationKey) (row : OperationRow H B) (rows : List (OperationRow H B))
      → find key (rows ++ row ∷ []) ≡ (elim (find key rows) [
        | some r ↦ some r
        | none ↦ if has_key key row then some row else none
      ])
  unfolding find
  find-snoc key row [] = ground arith
  find-snoc key row (r ∷ rows) = ground (arith, find-snoc key row rows)

  -- The keys of a row stay.
  abbrev pub KeepsKey : (OperationRow H B → OperationRow H B) → Type 0
  KeepsKey f =
      (row : OperationRow H B)
      → ((f row).device_id ≡ row.device_id) × ((f row).operation_id ≡ row.operation_id)

  has_key-kept :
      (key : OperationKey) (f : OperationRow H B → OperationRow H B) (row : OperationRow H B)
      → KeepsKey f
      → has_key key (f row) ≡ has_key key row
  has_key-kept key f row keeps = ground (arith, keeps row)

  pub find-update :
      (k key : OperationKey) (f : OperationRow H B → OperationRow H B)
      (rows : List (OperationRow H B))
      → KeepsKey f
      → find k (update key f rows)
        ≡ (elim (find k rows) [ none ↦ none | some r ↦ some (if has_key key r then f r else r) ])
  unfolding find update
  find-update k key f [] keeps = refl
  find-update k key f (row ∷ rows) keeps = elim (Bool-cases (has_key key row)) [
    | inl hit ↦ elim (Bool-cases (has_key k row)) [
      | inl h ↦ rw (hit, has_key-kept k f row keeps, h) (rw hit refl)
      | inr h ↦ rw (hit, has_key-kept k f row keeps, h) (find-update k key f rows keeps)
    ]
    | inr miss ↦ elim (Bool-cases (has_key k row)) [
      | inl h ↦ rw (miss, h) (rw miss refl)
      | inr h ↦ rw (miss, h) (find-update k key f rows keeps)
    ]
  ]

  pub find-update_all :
      (k : OperationKey) (f : OperationRow H B → OperationRow H B) (rows : List (OperationRow H B))
      → KeepsKey f
      → find k (update_all f rows) ≡ (elim (find k rows) [ none ↦ none | some r ↦ some (f r) ])
  unfolding find update_all
  find-update_all k f [] keeps = refl
  find-update_all k f (row ∷ rows) keeps = elim (Bool-cases (has_key k row)) [
    | inl h ↦ rw (has_key-kept k f row keeps, h) refl
    | inr h ↦ rw (has_key-kept k f row keeps, h) (find-update_all k f rows keeps)
  ]
