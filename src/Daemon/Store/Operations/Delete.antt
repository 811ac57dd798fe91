-- ===== src/Daemon/Store/Operations/Delete.antt =====
-- The rows of the operations that a statement of store.rs counts and deletes.
use omp_remote.Prelude.{
  ℕ, Bool, true, some, List, [], ◌∷◌, ◌+◌, ◌≡◌, refl, sym, ap, ◌∙◌, none, length, not, ◌||◌, ◌&&◌,
  if◌then◌else◌, arith, Bool-cases, inl, inr,
}
use omp_remote.Daemon.Store.Types.{OperationRow, OperationKey}
use omp_remote.Daemon.Store.Operations.Table.{find, has_key}

module _ {H B : Type 0} where
  unfoldable pub count : (OperationRow H B → Bool) → List (OperationRow H B) → ℕ
  count test [] = 0
  count test (row ∷ rows) = if test row then 1 + count test rows else count test rows

  -- `DELETE FROM operations WHERE …`
  unfoldable pub delete :
      (OperationRow H B → Bool) → List (OperationRow H B) → List (OperationRow H B)
  delete test [] = []
  delete test (row ∷ rows) = if test row then delete test rows else row ∷ delete test rows

  pub count-congr :
      (test other : OperationRow H B → Bool) (rows : List (OperationRow H B))
      → ((row : OperationRow H B) → test row ≡ other row)
      → count test rows ≡ count other rows
  unfolding count
  count-congr test other [] same = refl
  count-congr test other (row ∷ rows) same = rw (same row, count-congr test other rows same) refl

  pub count-delete :
      (test gone : OperationRow H B → Bool) (rows : List (OperationRow H B))
      → count test (delete gone rows) ≡ count (λ r. not (gone r) && test r) rows
  unfolding count delete
  count-delete test gone [] = refl
  count-delete test gone (row ∷ rows) = ground (arith, count-delete test gone rows)

  pub length-delete :
      (gone : OperationRow H B → Bool) (rows : List (OperationRow H B))
      → count gone rows + length (delete gone rows) ≡ length rows
  unfolding count delete
  length-delete gone [] = refl
  length-delete gone (row ∷ rows) = ground (arith, length-delete gone rows)

  pub delete-delete :
      (second first : OperationRow H B → Bool) (rows : List (OperationRow H B))
      → delete second (delete first rows) ≡ delete (λ r. first r || second r) rows
  unfolding delete
  delete-delete second first [] = refl
  delete-delete second first (row ∷ rows) = ground (arith, delete-delete second first rows)

  -- The primary key: no two rows have the same device and operation.
  abbrev pub key_of : OperationRow H B → OperationKey
  key_of row = record { device_id = row.device_id; operation_id = row.operation_id }

  abbrev pub AreKeyed : List (OperationRow H B) → Type 0
  AreKeyed [] = Unit
  AreKeyed (row ∷ rows) = (find (key_of row) rows ≡ none) × AreKeyed rows

  has_key-same : (k : OperationKey) (row : OperationRow H B) → has_key k row ≡ true → k ≡ key_of row
  has_key-same k row h =
      let (device, operation) = both k row h in
      ap (λ x. record { device_id = x; operation_id = k.operation_id }) (sym device)
      ∙ ap (λ x. record { device_id = row.device_id; operation_id = x }) (sym operation)
    where
      both :
          (k : OperationKey) (row : OperationRow H B)
          → has_key k row ≡ true
          → (row.device_id ≡ k.device_id) × (row.operation_id ≡ k.operation_id)
      both k row h = (ground arith, ground arith)

  find-delete_missing :
      (k : OperationKey) (gone : OperationRow H B → Bool) (rows : List (OperationRow H B))
      → find k rows ≡ none
      → find k (delete gone rows) ≡ none
  unfolding find delete
  find-delete_missing k gone [] h = refl
  find-delete_missing k gone (row ∷ rows) h = ground (arith, find-delete_missing k gone rows)

  -- What a deletion leaves of the rows that were found.
  pub find-delete :
      (k : OperationKey) (gone : OperationRow H B → Bool) (rows : List (OperationRow H B))
      → AreKeyed rows
      → find k (delete gone rows)
        ≡ (elim (find k rows) [ none ↦ none | some row ↦ if gone row then none else some row ])
  unfolding find delete
  find-delete k gone [] keyed = refl
  find-delete k gone (row ∷ rows) keyed =
      let rest = find-delete k gone rows keyed.1 in
      elim (Bool-cases (has_key k row)) [
        | inl h ↦
            let missing : find k rows ≡ none = rw (has_key-same k row h) keyed.0 in
            let after = find-delete_missing k gone rows missing in
            elim (Bool-cases (gone row)) [
              | inl g ↦ rw (h, g) after
              | inr g ↦ rw (h, g) (rw (h) refl)
            ]
        | inr h ↦ elim (Bool-cases (gone row)) [ inl g ↦ rw (h, g) rest | inr g ↦ rw (g, h) rest ]
      ]
