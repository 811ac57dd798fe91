-- ===== src/Daemon/Store/Access/Revocation.antt =====
-- The authentication of a device that store.rs has revoked.
use omp_remote.Prelude.{
  ℕ, ℤ, ◌≡◌, refl, Bool, true, false, some, List, Result, ok, err, arith, inl, inr, is_some,
  Option-cases,
}
use omp_remote.Prelude.BTreeMap
use omp_remote.Prelude.BTreeMap.{contains_key, get-insert}
use omp_remote.Protocol.Id.{DeviceId}
use omp_remote.Protocol.Frame.Types.{Payloads, DeviceToken}
use omp_remote.Daemon.Store.Types.{Outside, DeviceRecord, StoreError, DeviceAuthenticationError}
use omp_remote.Daemon.Store.Columns.{sql_u64}
use omp_remote.Daemon.Store.Operations.Ops.{Db}
use omp_remote.Daemon.Store.Devices.Ops.{
  authenticate_device, authenticate_row, revoke_device, revoke_row,
}
use omp_remote.Daemon.Store.Access.{AccessCall, after_accesses}
use omp_remote.Daemon.Store.Access.Revoked.{IsRevoked, after_accesses-IsRevoked}

module _ {P : Payloads} (o : Outside P) where
  -- Whether a call is refused for the credential.
  abbrev pub is_refused : Result DeviceAuthenticationError DeviceRecord → Bool
  is_refused (err DeviceAuthenticationError.invalid_credential) = true
  is_refused (err DeviceAuthenticationError.revoked) = true
  is_refused _ = false

  revoked_refused :
      (k : DeviceId) (token : DeviceToken) (t : ℕ) (c : Db o)
      → IsRevoked o k c
      → (is_refused (authenticate_device o k token t c).0 ≡ true)
        × ((authenticate_device o k token t c).1 ≡ c)
  unfolding authenticate_device authenticate_row
  revoked_refused k token t c h = elim (Option-cases (BTreeMap.get k c.devices)) [
    | inl f ↦ rw (f, authenticate_device) (refl, refl)
    | inr (row, f) ↦ rw (f, authenticate_device) (ground arith)
  ]

  revoke_row-revokes :
      (k : DeviceId) (now : ℤ) (c : Db o)
      → is_some (BTreeMap.get k c.devices) ≡ true
      → IsRevoked o k (revoke_row o k now c).1
  unfolding revoke_row
  revoke_row-revokes k now c h = elim (Option-cases (BTreeMap.get k c.devices)) [
    | inl f ↦ cc (rw f at h)
    | inr (row, f) ↦
        rw (f, revoke_row)
          (ground (arith, get-insert k k (record row { revoked_at_ms = some now }) c.devices))
  ]

  revoke-revokes :
      (k : DeviceId) (t : ℕ) (c : Db o) (answer : Bool)
      → is_some (BTreeMap.get k c.devices) ≡ true
      → (revoke_device o k t c).0 ≡ ok answer
      → IsRevoked o k (revoke_device o k t c).1
  unfolding revoke_device
  revoke-revokes k t c answer there h = go (sql_u64 t "device revoked_at_ms") refl
    where
      go :
          (x : Result StoreError ℤ)
          → sql_u64 t "device revoked_at_ms" ≡ x
          → IsRevoked o k (revoke_device o k t c).1
      go (err e) x = cc (rw (x, revoke_device) at h)
      go (ok now) x = rw (x, revoke_device) (revoke_row-revokes k now c there)

  -- Once a device that the store knows is revoked without an error of the store, every later
  -- attempt to authenticate as it is refused and changes nothing, with any token, at any time, and
  -- whatever was called upon devices and pairings in between.
  pub revocation_lasts :
      (k : DeviceId) (t : ℕ) (c : Db o) (answer : Bool) (calls : List AccessCall)
      (token : DeviceToken) (later : ℕ)
      → is_some (BTreeMap.get k c.devices) ≡ true
      → (revoke_device o k t c).0 ≡ ok answer
      → let c' = after_accesses o calls (revoke_device o k t c).1 in
        (is_refused (authenticate_device o k token later c').0 ≡ true)
        × ((authenticate_device o k token later c').1 ≡ c')
  revocation_lasts k t c answer calls token later there h =
      revoked_refused k token later _
        (after_accesses-IsRevoked o k calls _ (revoke-revokes k t c answer there h))
