-- ===== src/Daemon/Store/Access/Untouched.antt =====
-- The calls of store.rs upon devices, and the pairings.
use omp_remote.Prelude.{ℕ, ℤ, ◌≡◌, refl, Result, ok, err, arith, inl, inr, Option-cases}
use omp_remote.Prelude.BTreeMap
use omp_remote.Prelude.BTreeMap.{contains_key, get-insert}
use omp_remote.Protocol.Id.{DeviceId}
use omp_remote.Protocol.Frame.Types.{Payloads, DeviceToken}
use omp_remote.Daemon.Store.Types.{Outside, DeviceRow, DeviceRecord, StoreError}
use omp_remote.Daemon.Store.Columns.{sql_u64}
use omp_remote.Daemon.Store.Operations.Ops.{Db}
use omp_remote.Daemon.Store.Devices.Ops.{
  insert_device, insert_row, authenticate_device, authenticate_row, admit, revoke_device,
  revoke_row,
}

module _ {P : Payloads} (o : Outside P) where
  abbrev pub Kept : Db o → Db o → Type 0
  Kept c c' = c'.pairing_secrets ≡ c.pairing_secrets

  pub insert_row-Kept :
      (id : DeviceId) (row : DeviceRow o.Hash) (c : Db o) → Kept c (insert_row o id row c).1
  unfolding insert_row
  insert_row-Kept id row c = ground arith

  pub insert_device-Kept :
      (r : DeviceRecord) (token : DeviceToken) (c : Db o) → Kept c (insert_device o r token c).1
  unfolding insert_device
  insert_device-Kept r token c =
      ground (arith, λ (row : DeviceRow o.Hash). insert_row-Kept r.device_id row c)

  pub admit-Kept :
      (id : DeviceId) (row : DeviceRow o.Hash) (now : Result StoreError ℤ) (c : Db o)
      → Kept c (admit o id row now c).1
  unfolding admit
  admit-Kept id row (err e) c = refl
  admit-Kept id row (ok now) c = refl

  pub authenticate-Kept :
      (id : DeviceId) (token : DeviceToken) (t : ℕ) (c : Db o)
      → Kept c (authenticate_device o id token t c).1
  unfolding authenticate_device authenticate_row
  authenticate-Kept id token t c = elim (Option-cases (BTreeMap.get id c.devices)) [
    | inl f ↦ rw (f, authenticate_device) refl
    | inr (row, f) ↦
        rw (f, authenticate_device)
          (ground (arith, admit-Kept id row (sql_u64 t "device last_seen_at_ms") c))
  ]

  pub revoke_row-Kept : (id : DeviceId) (now : ℤ) (c : Db o) → Kept c (revoke_row o id now c).1
  unfolding revoke_row
  revoke_row-Kept id now c = ground arith

  pub revoke-Kept : (id : DeviceId) (t : ℕ) (c : Db o) → Kept c (revoke_device o id t c).1
  unfolding revoke_device
  revoke-Kept id t c = ground (arith, λ (now : ℤ). revoke_row-Kept id now c)
