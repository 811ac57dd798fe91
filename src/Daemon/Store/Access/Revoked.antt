-- ===== src/Daemon/Store/Access/Revoked.antt =====
-- The devices of store.rs that are revoked, under the calls upon devices and pairings.
use omp_remote.Prelude.{
  ℕ, ℤ, String, ◌≡◌, refl, Bool, true, false, Option, none, some, List, [], ◌∷◌, Result, ok, err,
  arith, Bool-cases, inl, inr, is_some, Option-cases,
}
use omp_remote.Prelude.BTreeMap
use omp_remote.Prelude.BTreeMap.{contains_key, get-insert}
use omp_remote.Protocol.Id.{DeviceId, PairingId, ServerId}
use omp_remote.Protocol.Frame.Types.{
  Payloads, DeviceToken, PairingSecret, DeviceScopes, DeviceDescriptor,
}
use omp_remote.Daemon.Store.Types.{
  Outside, DeviceRow, PairingRow, DeviceRecord, StoreError, PairingError,
}
use omp_remote.Daemon.Store.Columns.{sql_u64}
use omp_remote.Daemon.Store.Operations.Ops.{Db}
use omp_remote.Daemon.Store.Devices.Ops.{
  seen_at, insert_device, insert_row, device_row, authenticate_device, authenticate_row, admit,
  revoke_device, revoke_row,
}
use omp_remote.Daemon.Store.Pairing.Ops.{
  create_pairing, consume_pairing, exchange_pairing, redeem, pairing_row, paired_row, RawPairing,
}
use omp_remote.Daemon.Store.Access.{
  AccessCall, insert_call, authenticate_call, revoke_call, create_call, consume_call, exchange_call,
  after_access, after_accesses,
}

module _ {P : Payloads} (o : Outside P) where
  -- Whether the device's row says that it was revoked.
  abbrev pub revoked_row : Option (DeviceRow o.Hash) → Bool
  revoked_row none = false
  revoked_row (some row) = is_some row.revoked_at_ms

  abbrev pub IsRevoked : DeviceId → Db o → Type 0
  IsRevoked k c = revoked_row (BTreeMap.get k c.devices) ≡ true

  insert_row-IsRevoked :
      (k id : DeviceId) (row : DeviceRow o.Hash) (c : Db o)
      → IsRevoked k c
      → IsRevoked k (insert_row o id row c).1
  unfolding insert_row
  insert_row-IsRevoked k id row c h = ground (arith, get-insert id k row c.devices)

  insert_device-IsRevoked :
      (k : DeviceId) (r : DeviceRecord) (token : DeviceToken) (c : Db o)
      → IsRevoked k c
      → IsRevoked k (insert_device o r token c).1
  unfolding insert_device
  insert_device-IsRevoked k r token c h = go (device_row o r token) refl
    where
      go :
          (x : Result StoreError (DeviceRow o.Hash))
          → device_row o r token ≡ x
          → IsRevoked k (insert_device o r token c).1
      go (err e) x = rw (x, insert_device) h
      go (ok row) x = rw (x, insert_device) (insert_row-IsRevoked k r.device_id row c h)

  admit-IsRevoked :
      (k id : DeviceId) (row : DeviceRow o.Hash) (now : Result StoreError ℤ) (c : Db o)
      → BTreeMap.get id c.devices ≡ some row
      → IsRevoked k c
      → IsRevoked k (admit o id row now c).1
  unfolding admit
  admit-IsRevoked k id row (err e) c f h = h
  admit-IsRevoked k id row (ok now) c f h =
      ground (arith, get-insert id k (seen_at o now row) c.devices)

  authenticate-IsRevoked :
      (k id : DeviceId) (token : DeviceToken) (t : ℕ) (c : Db o)
      → IsRevoked k c
      → IsRevoked k (authenticate_device o id token t c).1
  unfolding authenticate_device authenticate_row
  authenticate-IsRevoked k id token t c h = elim (Option-cases (BTreeMap.get id c.devices)) [
    | inl f ↦ rw (f, authenticate_device) h
    | inr (row, f) ↦
        rw (f, authenticate_device)
          (ground (arith, admit-IsRevoked k id row (sql_u64 t "device last_seen_at_ms") c f h))
  ]

  revoke_row-IsRevoked :
      (k id : DeviceId) (now : ℤ) (c : Db o) → IsRevoked k c → IsRevoked k (revoke_row o id now c).1
  unfolding revoke_row
  revoke_row-IsRevoked k id now c h = elim (Option-cases (BTreeMap.get id c.devices)) [
    | inl f ↦ rw (f, revoke_row) h
    | inr (row, f) ↦
        rw (f, revoke_row)
          (ground (arith, get-insert id k (record row { revoked_at_ms = some now }) c.devices))
  ]

  revoke-IsRevoked :
      (k id : DeviceId) (t : ℕ) (c : Db o) → IsRevoked k c → IsRevoked k (revoke_device o id t c).1
  unfolding revoke_device
  revoke-IsRevoked k id t c h = go (sql_u64 t "device revoked_at_ms") refl
    where
      go :
          (x : Result StoreError ℤ)
          → sql_u64 t "device revoked_at_ms" ≡ x
          → IsRevoked k (revoke_device o id t c).1
      go (err e) x = rw (x, revoke_device) h
      go (ok now) x = rw (x, revoke_device) (revoke_row-IsRevoked k id now c h)

  create-IsRevoked :
      (k : DeviceId) (id : PairingId) (secret : PairingSecret) (name : String)
      (scopes : DeviceScopes) (t ttl : ℕ) (c : Db o)
      → IsRevoked k c
      → IsRevoked k (create_pairing o id secret name scopes t ttl c).1
  unfolding create_pairing
  create-IsRevoked k id secret name scopes t ttl c h =
      go (pairing_row o secret name scopes t ttl) refl
    where
      go :
          (x : Result StoreError (ℕ × PairingRow o.Hash))
          → pairing_row o secret name scopes t ttl ≡ x
          → IsRevoked k (create_pairing o id secret name scopes t ttl c).1
      go (err e) x = rw (x, create_pairing) h
      go (ok (expires, row)) x = elim (Bool-cases (contains_key id c.pairing_secrets)) [
        | inl d ↦ rw (x, d, create_pairing) h
        | inr d ↦ rw (x, d, create_pairing) h
      ]

  consume-IsRevoked :
      (k : DeviceId) (id : PairingId) (secret : PairingSecret) (t : ℕ) (c : Db o)
      → IsRevoked k c
      → IsRevoked k (consume_pairing o id secret t c).1
  unfolding consume_pairing
  consume-IsRevoked k id secret t c h = go (redeem o id secret t c) refl
    where
      go :
          (x : Result PairingError (PairingRow o.Hash × RawPairing o.Hash × ℤ))
          → redeem o id secret t c ≡ x
          → IsRevoked k (consume_pairing o id secret t c).1
      go (err e) x = rw (x, consume_pairing) h
      go (ok (row, raw, now)) x = rw (x, consume_pairing) h

  exchange-IsRevoked :
      (k : DeviceId) (server : ServerId) (device : DeviceId) (token : DeviceToken) (id : PairingId)
      (secret : PairingSecret) (descriptor : DeviceDescriptor) (t : ℕ) (c : Db o)
      → IsRevoked k c
      → IsRevoked k (exchange_pairing o server device token id secret descriptor t c).1
  unfolding exchange_pairing insert_row
  exchange-IsRevoked k server device token id secret descriptor t c h =
      go (redeem o id secret t c) refl
    where
      go :
          (x : Result PairingError (PairingRow o.Hash × RawPairing o.Hash × ℤ))
          → redeem o id secret t c ≡ x
          → IsRevoked k (exchange_pairing o server device token id secret descriptor t c).1
      go (err e) x = rw (x, exchange_pairing) h
      go (ok (row, raw, now)) x = elim (Bool-cases (contains_key device c.devices)) [
        | inl d ↦ rw (x, d, exchange_pairing) h
        | inr d ↦
            rw (x, d, exchange_pairing)
              (ground
                (arith, get-insert device k (paired_row o raw descriptor token now) c.devices))
      ]

  after_access-IsRevoked :
      (k : DeviceId) (call : AccessCall) (c : Db o)
      → IsRevoked k c
      → IsRevoked k (after_access o call c)
  unfolding after_access
  after_access-IsRevoked k (insert_call r token) c h = insert_device-IsRevoked k r token c h
  after_access-IsRevoked k (authenticate_call id token t) c h =
      authenticate-IsRevoked k id token t c h
  after_access-IsRevoked k (revoke_call id t) c h = revoke-IsRevoked k id t c h
  after_access-IsRevoked k (create_call id secret name scopes t ttl) c h =
      create-IsRevoked k id secret name scopes t ttl c h
  after_access-IsRevoked k (consume_call id secret t) c h = consume-IsRevoked k id secret t c h
  after_access-IsRevoked k (exchange_call server device token id secret descriptor t) c h =
      exchange-IsRevoked k server device token id secret descriptor t c h

  pub after_accesses-IsRevoked :
      (k : DeviceId) (calls : List AccessCall) (c : Db o)
      → IsRevoked k c
      → IsRevoked k (after_accesses o calls c)
  unfolding after_accesses
  after_accesses-IsRevoked k [] c h = h
  after_accesses-IsRevoked k (call ∷ calls) c h =
      after_accesses-IsRevoked k calls (after_access o call c) (after_access-IsRevoked k call c h)
