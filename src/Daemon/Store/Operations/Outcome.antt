-- ===== src/Daemon/Store/Operations/Outcome.antt =====
-- What store.rs answers to a request that comes again.
use omp_remote.Prelude.{
  ℕ, ◌≤◌, ◌≡◌, refl, ℤ, pos, true, some, Result, ok, err, arith, ap, ◌∙◌, if◌then◌else◌, Bool-cases,
  inl, inr, Option-cases, i64_max,
}
use omp_remote.Prelude.BTreeMap.{contains_key}
use omp_remote.Protocol.Frame.Types.{Payloads, ControlRequest, ResponseOutcome}
use omp_remote.Daemon.Store.Types.{
  Outside, OperationKey, OperationStatus, OperationClaim, OperationError,
}
use omp_remote.Daemon.Store.Columns.{sql_u64}
use omp_remote.Daemon.Store.Operations.Table.{find, has_key, find-snoc, find-update}
use omp_remote.Daemon.Store.Operations.Ops.{
  Row, Db, claim_params, claimed_row, existing_claim, status_claim, claim_row, claim_operation,
  complete_params, complete_row, is_pending, complete_operation,
}
use omp_remote.Daemon.Store.Operations.Once.{complete_row-KeepsKey, existing_idle, is_execute}

module _ {P : Payloads} (o : Outside P) where
  has_key_self :
      (key : OperationKey) (hash : o.Hash) (at : ℤ) → has_key key (claimed_row o key hash at) ≡ true
  has_key_self key hash at = ground arith

  -- An executed claim stands in the table.
  executed :
      (key : OperationKey) (request : ControlRequest P) (t : ℕ) (c : Db o)
      → (claim_operation o key request t c).0 ≡ ok OperationClaim.execute
      → (hash : o.Hash) × (at : ℤ) × (claim_params o request t ≡ ok (hash, at))
        × (find key (claim_operation o key request t c).1.operations
            ≡ some (claimed_row o key hash at))
  unfolding claim_operation claim_row
  executed key request t c h = go (claim_params o request t) refl
    where
      inserted :
          (hash : o.Hash) (at : ℤ)
          → (claim_row o key hash at c).0 ≡ ok OperationClaim.execute
          → find key (claim_row o key hash at c).1.operations ≡ some (claimed_row o key hash at)
      inserted hash at e = elim (Option-cases (find key c.operations)) [
        | inr (row, x) ↦ cc (ap (is_execute o) (rw (x, claim_row) at e), existing_idle o row hash)
        | inl x ↦ elim (Bool-cases (contains_key key.device_id c.devices)) [
          | inl d ↦
              rw (x, d, claim_row)
                (find-snoc key (claimed_row o key hash at) c.operations
                  ∙ rw x (rw (has_key_self key hash at) refl))
          | inr d ↦ cc (rw (x, d, claim_row) at e)
        ]
      ]

      go :
          (r : Result OperationError (o.Hash × ℤ))
          → claim_params o request t ≡ r
          → (hash : o.Hash) × (at : ℤ) × (claim_params o request t ≡ ok (hash, at))
            × (find key (claim_operation o key request t c).1.operations
                ≡ some (claimed_row o key hash at))
      go (err e) x = cc (rw (x, claim_operation) at h)
      go (ok (hash, at)) x =
          (hash, at, x, rw (x, claim_operation) (inserted hash at (rw (x, claim_operation) at h)))

  -- The hash does not hang on the time.
  claim_params-later :
      (request : ControlRequest P) (t later : ℕ) (hash : o.Hash) (at : ℤ)
      → claim_params o request t ≡ ok (hash, at)
      → later ≤ i64_max
      → claim_params o request later ≡ ok (hash, pos later)
  unfolding claim_params sql_u64
  claim_params-later request t later hash at h m = ground arith

  existing_known :
      (row : Row o)
      → existing_claim o row row.request_hash ≡ status_claim o row.status row.outcome_cbor
  unfolding existing_claim
  existing_known row = ground arith

  -- A claim of a request whose hash is in the table is answered by the status.
  claim_known :
      (key : OperationKey) (request : ControlRequest P) (t : ℕ) (at : ℤ) (row : Row o) (c : Db o)
      → find key c.operations ≡ some row
      → claim_params o request t ≡ ok (row.request_hash, at)
      → claim_operation o key request t c ≡ (status_claim o row.status row.outcome_cbor, c)
  unfolding claim_operation claim_row
  claim_known key request t at row c f p =
      rw (p, claim_operation) (rw (f, claim_row) (rw (existing_known row) refl))

  complete_params-encoded :
      (outcome : ResponseOutcome) (t : ℕ) (b : o.Blob) (at : ℤ)
      → complete_params o outcome t ≡ ok (b, at)
      → o.encode_outcome outcome ≡ ok b
  unfolding complete_params sql_u64
  complete_params-encoded outcome t b at h = ground arith

  answer :
      (b : o.Blob) (x : ResponseOutcome)
      → o.decode_outcome b ≡ ok x
      → status_claim o OperationStatus.completed (some b) ≡ ok (OperationClaim.completed x)
  unfolding status_claim
  answer b x h = rw h refl

  completed_row :
      (key : OperationKey) (outcome : ResponseOutcome) (t : ℕ) (row : Row o) (c : Db o)
      → find key c.operations ≡ some row
      → row.status ≡ OperationStatus.pending
      → (complete_operation o key outcome t c).0 ≡ ok tt
      → (b : o.Blob) × (at : ℤ) × (o.encode_outcome outcome ≡ ok b)
        × (find key (complete_operation o key outcome t c).1.operations
            ≡ some (if has_key key row then complete_row o b at row else row))
  unfolding complete_operation
  completed_row key outcome t row c f s h = go (complete_params o outcome t) refl
    where
      go :
          (r : Result OperationError (o.Blob × ℤ))
          → complete_params o outcome t ≡ r
          → (b : o.Blob) × (at : ℤ) × (o.encode_outcome outcome ≡ ok b)
            × (find key (complete_operation o key outcome t c).1.operations
                ≡ some (if has_key key row then complete_row o b at row else row))
      go (err e) x = cc (rw (x, complete_operation) at h)
      go (ok (b, at)) x = (
        b,
        at,
        complete_params-encoded outcome t b at x,
        rw (x, complete_operation)
            (rw (f, ap (is_pending o) s)
              (find-update key key (complete_row o b at) c.operations (complete_row-KeepsKey o b at)
                ∙ rw f refl)),
      )

  module _ (key : OperationKey) (request : ControlRequest P) (t : ℕ) (c : Db o)
      (first : (claim_operation o key request t c).0 ≡ ok OperationClaim.execute) where
    -- While the request that was claimed first runs, the same request under the same key is told
    -- that it is in progress, at whatever time the database can store, and the store stays as it
    -- is.
    claim_again_in_progress :
        (later : ℕ)
        → later ≤ i64_max
        → let c' = (claim_operation o key request t c).1 in
          claim_operation o key request later c' ≡ (ok OperationClaim.in_progress, c')
    claim_again_in_progress later m =
        let (hash, at, p, f) = executed key request t c first in
        claim_known key request later (pos later) (claimed_row o key hash at) _ f
          (claim_params-later request t later hash at p m)
        ∙ unfold status_claim in refl

    -- After a claim was executed and completed, in a store where its row was left as the claim
    -- made it, the same request under the same key is answered with the outcome, and the store
    -- stays as it is, if the codec decodes what it encoded and the time is within i64.
    pub claim_again_completed :
        (codec : (x : ResponseOutcome) (b : o.Blob)
          → o.encode_outcome x ≡ ok b
          → o.decode_outcome b ≡ ok x)
        (outcome : ResponseOutcome) (done later : ℕ) (c' : Db o)
        → later ≤ i64_max
        → find key c'.operations ≡ find key (claim_operation o key request t c).1.operations
        → (complete_operation o key outcome done c').0 ≡ ok tt
        → claim_operation o key request later (complete_operation o key outcome done c').1
          ≡ (ok (OperationClaim.completed outcome), (complete_operation o key outcome done c').1)
    claim_again_completed codec outcome done later c' m kept h =
        let (hash, at, p, f) = executed key request t c first in
        let row = claimed_row o key hash at in
        let (b, end, e, g) = completed_row key outcome done row c' (kept ∙ f) refl h in
        let g' = g ∙ rw (has_key_self key hash at) refl in
        claim_known key request later (pos later) (complete_row o b end row) _ g'
          (claim_params-later request t later hash at p m)
        ∙ rw (answer b outcome (codec outcome b e)) refl
