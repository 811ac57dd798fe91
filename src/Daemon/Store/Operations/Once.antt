-- ===== src/Daemon/Store/Operations/Once.antt =====
-- How often a key of store.rs is answered by `Execute`, through claims, completions and restarts.
use mathlib.Core.Logic.{ite}
use omp_remote.Prelude.{
  ℕ, ◌+◌, ◌≤◌, ◌≡◌, refl, ℤ, Bool, true, false, ◌&&◌, List, [], ◌∷◌, Result, ok, err, arith, sym,
  subst, ◌⊎◌, if◌then◌else◌, Bool-cases, inl, inr, String_discrete, is_some, Option-cases,
}
use omp_remote.Protocol.Frame.Types.{Payloads, ControlRequest, ResponseOutcome}
use omp_remote.Daemon.Store.Types.{Outside, OperationKey, OperationClaim, OperationError}
use omp_remote.Daemon.Store.Operations.Table.{
  find, find-snoc, find-update, find-update_all, KeepsKey,
}
use omp_remote.Daemon.Store.Operations.Ops.{
  Row, Db, claim_params, claimed_row, existing_claim, claim_row, claim_operation, complete_params,
  complete_row, complete_operation, recover_row, recover_operations,
}

-- A call upon the operations of the store.
pub data Call (P : Payloads) : Type 0 where
  claim : OperationKey → ControlRequest P → ℕ → Call P
  complete : OperationKey → ResponseOutcome → ℕ → Call P
  restart : Call P

abbrev pub same_key : OperationKey → OperationKey → Bool
same_key a b =
    ite (String_discrete a.device_id b.device_id) true false
    && ite (String_discrete a.operation_id b.operation_id) true false

same_key-eq : (a b : OperationKey) → same_key a b ≡ true → a ≡ b
same_key-eq a b h = ground arith

module _ {P : Payloads} (o : Outside P) where
  unfoldable pub after : Call P → Db o → Db o
  after (claim key request now_ms) c = (claim_operation o key request now_ms c).1
  after (complete key outcome now_ms) c = (complete_operation o key outcome now_ms c).1
  after restart c = recover_operations o c

  -- An `Execute`.
  abbrev pub is_execute : Result OperationError OperationClaim → Bool
  is_execute (ok OperationClaim.execute) = true
  is_execute _ = false

  -- Whether the call executes a request under the key.
  unfoldable pub executes : OperationKey → Call P → Db o → ℕ
  executes k (claim key request now_ms) c =
      if same_key key k && is_execute (claim_operation o key request now_ms c).0 then 1 else 0
  executes k _ c = 0

  unfoldable pub executions : OperationKey → List (Call P) → Db o → ℕ
  unfolding executes after
  executions k [] c = 0
  executions k (call ∷ calls) c = executes k call c + executions k calls (after call c)

  abbrev pub Known : OperationKey → Db o → Type 0
  Known k c = is_some (find k c.operations) ≡ true

  pub complete_row-KeepsKey : (encoded : o.Blob) (at : ℤ) → KeepsKey (complete_row o encoded at)
  complete_row-KeepsKey encoded at row = ground arith

  pub recover_row-KeepsKey : KeepsKey (recover_row o)
  recover_row-KeepsKey row = ground arith

  claim_row-Known :
      (k key : OperationKey) (hash : o.Hash) (at : ℤ) (c : Db o)
      → Known k c
      → Known k (claim_row o key hash at c).1
  unfolding claim_row
  claim_row-Known k key hash at c h =
      ground (arith, find-snoc k (claimed_row o key hash at) c.operations)

  -- What a claim executes it records.
  claim_row-recorded :
      (k key : OperationKey) (hash : o.Hash) (at : ℤ) (c : Db o)
      → (same_key key k && is_execute (claim_row o key hash at c).0) ≡ true
      → Known k (claim_row o key hash at c).1
  unfolding claim_row
  claim_row-recorded k key hash at c h =
      ground (arith, find-snoc k (claimed_row o key hash at) c.operations)

  pub existing_idle : (row : Row o) (hash : o.Hash) → is_execute (existing_claim o row hash) ≡ false
  unfolding existing_claim
  existing_idle row hash = ground arith

  Known-idle :
      (key : OperationKey) (hash : o.Hash) (at : ℤ) (c : Db o)
      → Known key c
      → is_execute (claim_row o key hash at c).0 ≡ false
  unfolding claim_row
  Known-idle key hash at c h = elim (Option-cases (find key c.operations)) [
    | inl e ↦ cc (rw e at h)
    | inr (row, e) ↦ rw (e, claim_row) (existing_idle row hash)
  ]

  claim_row-Known_idle :
      (k key : OperationKey) (hash : o.Hash) (at : ℤ) (c : Db o)
      → Known k c
      → (same_key key k && is_execute (claim_row o key hash at c).0) ≡ false
  claim_row-Known_idle k key hash at c h = elim (Bool-cases (same_key key k)) [
    | inr e ↦ rw e refl
    | inl e ↦ rw e (Known-idle key hash at c (subst (λ k. Known k c) (sym (same_key-eq key k e)) h))
  ]

  Known-after : (k : OperationKey) (call : Call P) (c : Db o) → Known k c → Known k (after call c)
  unfolding after claim_operation find complete_operation
  Known-after k (claim key request now_ms) c h = go (claim_params o request now_ms) refl
    where
      go :
          (r : Result OperationError (o.Hash × ℤ))
          → claim_params o request now_ms ≡ r
          → Known k (claim_operation o key request now_ms c).1
      go (err e) x = rw (x, claim_operation) h
      go (ok (hash, at)) x = rw (x, claim_operation) (claim_row-Known k key hash at c h)
  Known-after k (complete key outcome now_ms) c h = go (complete_params o outcome now_ms) refl
    where
      go :
          (r : Result OperationError (o.Blob × ℤ))
          → complete_params o outcome now_ms ≡ r
          → Known k (complete_operation o key outcome now_ms c).1
      go (err e) x = rw (x, complete_operation) h
      go (ok (encoded, at)) x =
          rw (x, complete_operation)
            (ground (
              arith,
              find-update k key (complete_row o encoded at) c.operations
                  (complete_row-KeepsKey encoded at),
            ))
  Known-after k restart c h =
      unfold recover_operations in
      ground (arith, find-update_all k (recover_row o) c.operations recover_row-KeepsKey)

  -- A call executes nothing under a known key.
  executes-Known : (k : OperationKey) (call : Call P) (c : Db o) → Known k c → executes k call c ≡ 0
  unfolding executes claim_operation String_discrete
  executes-Known k (claim key request now_ms) c h = go (claim_params o request now_ms) refl
    where
      go :
          (r : Result OperationError (o.Hash × ℤ))
          → claim_params o request now_ms ≡ r
          → executes k (claim key request now_ms) c ≡ 0
      go (err e) x = rw (x, executes, claim_operation) (ground arith)
      go (ok (hash, at)) x =
          rw (x, executes, claim_operation) (rw (claim_row-Known_idle k key hash at c h) refl)
  executes-Known k (complete key outcome now_ms) c h = refl
  executes-Known k restart c h = refl

  -- One call executes at most one request, and then the key is known.
  executes-recorded :
      (k : OperationKey) (call : Call P) (c : Db o)
      → (executes k call c ≡ 0) ⊎ ((executes k call c ≡ 1) × Known k (after call c))
  unfolding executes after claim_operation String_discrete
  executes-recorded k (claim key request now_ms) c = go (claim_params o request now_ms) refl
    where
      go :
          (r : Result OperationError (o.Hash × ℤ))
          → claim_params o request now_ms ≡ r
          → (executes k (claim key request now_ms) c ≡ 0)
            ⊎ ((executes k (claim key request now_ms) c ≡ 1)
                × Known k (after (claim key request now_ms) c))
      go (err e) x = inl (rw (x, executes, claim_operation) (ground arith))
      go (ok (hash, at)) x =
          elim (Bool-cases (same_key key k && is_execute (claim_row o key hash at c).0)) [
            | inl e ↦ inr (
              rw (x, executes, claim_operation) (rw e refl),
              rw (x, after, claim_operation) (claim_row-recorded k key hash at c e),
            )
            | inr e ↦ inl (rw (x, executes, claim_operation) (rw e refl))
          ]
  executes-recorded k (complete key outcome now_ms) c = inl refl
  executes-recorded k restart c = inl refl

  executions-Known :
      (k : OperationKey) (calls : List (Call P)) (c : Db o) → Known k c → executions k calls c ≡ 0
  unfolding executions
  executions-Known k [] c h = refl
  executions-Known k (call ∷ calls) c h = omega (
    arith,
    executes-Known k call c h,
    executions-Known k calls (after call c) (Known-after k call c h),
  )

  at_most_one : (k : OperationKey) (calls : List (Call P)) (c : Db o) → executions k calls c ≤ 1
  unfolding executions
  at_most_one k [] c = omega arith
  at_most_one k (call ∷ calls) c = elim (executes-recorded k call c) [
    | inl e ↦ omega (arith, e, at_most_one k calls (after call c))
    | inr (e, h) ↦ omega (arith, e, executions-Known k calls (after call c) h)
  ]

  -- Whatever is claimed, completed and recovered at a restart, under any keys and times, a request
  -- is executed under a key at most once, and not at all if the key was known before.
  pub executions-le-one :
      (k : OperationKey) (calls : List (Call P)) (c : Db o)
      → executions k calls c ≤ (if is_some (find k c.operations) then 0 else 1)
  unfolding executions
  executions-le-one k calls c = elim (Bool-cases (is_some (find k c.operations))) [
    | inl e ↦ rw e (omega (arith, executions-Known k calls c e))
    | inr e ↦ rw e (at_most_one k calls c)
  ]
