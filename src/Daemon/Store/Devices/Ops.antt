-- ===== src/Daemon/Store/Devices/Ops.antt =====
-- `insert_device`, `load_device`, `authenticate_device` and `revoke_device`.
use Prim.Native.String.{◌++◌ as str_append}
use mathlib.Core.Logic.{ite}
use omp_remote.Prelude.{
  ℕ, ℤ, Bool, true, false, Option, none, some, Result, ok, err, ◌>>=◌, map_err, transpose,
  if◌then◌else◌,
}
use omp_remote.Prelude.BTreeMap
use omp_remote.Prelude.BTreeMap.{contains_key}
use omp_remote.Protocol.Id.{DeviceId, new_identifier, IdentifierError, identifier_error}
use omp_remote.Protocol.Frame.Types.{Payloads, DeviceToken}
use omp_remote.Daemon.Store.Types.{
  Outside, DeviceRow, DeviceRecord, StoreError, database, corrupt_data, DeviceAuthenticationError,
}
use omp_remote.Daemon.Store.Columns.{sql_u64, wire_u64, encode_platform, decode_platform}
use omp_remote.Daemon.Store.Operations.Ops.{Db}

-- `StoreError::CorruptData(error.to_string())` of an identifier's error.
abbrev pub corrupt_identifier : IdentifierError → StoreError
corrupt_identifier (identifier_error label) = corrupt_data (str_append label " cannot be empty")

module _ {P : Payloads} (o : Outside P) where
  unfoldable pub decode_device : DeviceId → DeviceRow o.Hash → Result StoreError DeviceRecord
  unfolding new_identifier
  decode_device device_id row =
      map_err corrupt_identifier (new_identifier "device ID" device_id) >>= λ id.
      decode_platform row.platform >>= λ platform.
      wire_u64 row.created_at_ms "device created_at_ms" >>= λ created.
      transpose (λ v. wire_u64 v "device last_seen_at_ms") row.last_seen_at_ms >>= λ seen.
      transpose (λ v. wire_u64 v "device revoked_at_ms") row.revoked_at_ms >>= λ gone. ok (record {
        device_id = id;
        name = row.name;
        platform = platform;
        scopes = row.scopes;
        created_at_ms = created;
        last_seen_at_ms = seen;
        revoked_at_ms = gone;
      })

  -- `load_device`, which `device` calls too.
  unfoldable pub load_device : DeviceId → Db o → Result StoreError (Option DeviceRecord)
  unfolding decode_device
  load_device device_id c = elim (BTreeMap.get device_id c.devices) [
    | none ↦ ok none
    | some row ↦ decode_device device_id row >>= λ record'. ok (some record')
  ]

  -- The row that an INSERT writes.
  unfoldable pub device_row : DeviceRecord → DeviceToken → Result StoreError (DeviceRow o.Hash)
  unfolding encode_platform
  device_row r token = sql_u64 r.created_at_ms "device created_at_ms" >>= λ created.
      transpose (λ v. sql_u64 v "device last_seen_at_ms") r.last_seen_at_ms >>= λ seen.
      transpose (λ v. sql_u64 v "device revoked_at_ms") r.revoked_at_ms >>= λ gone. ok (record {
        name = r.name;
        platform = encode_platform r.platform;
        scopes = r.scopes;
        token_hash = o.hash_secret token;
        created_at_ms = created;
        last_seen_at_ms = seen;
        revoked_at_ms = gone;
      })

  -- INSERT INTO devices: a device ID that is there violates the primary key.
  unfoldable pub insert_row :
      DeviceId → DeviceRow o.Hash → Db o → Result StoreError (Unit {0}) × Db o
  insert_row device_id row c =
      if contains_key device_id c.devices
      then (err database, c)
      else (ok tt, record c { devices = BTreeMap.insert device_id row c.devices })

  unfoldable pub insert_device :
      DeviceRecord → DeviceToken → Db o → Result StoreError (Unit {0}) × Db o
  unfolding device_row insert_row
  insert_device r token c = elim (device_row r token) [
    | err e ↦ (err e, c)
    | ok row ↦ insert_row r.device_id row c
  ]

  -- UPDATE devices SET last_seen_at_ms.
  abbrev pub seen_at : ℤ → DeviceRow o.Hash → DeviceRow o.Hash
  seen_at now row = record row { last_seen_at_ms = some now }

  -- The end of `authenticate_device`, for a credential that is good.
  unfoldable pub admit :
      DeviceId
      → DeviceRow o.Hash
      → Result StoreError ℤ
      → Db o
      → Result DeviceAuthenticationError DeviceRecord × Db o
  unfolding load_device
  admit device_id row (err e) c = (err (DeviceAuthenticationError.store e), c)
  admit device_id row (ok now) c =
      let c' = record c { devices = BTreeMap.insert device_id (seen_at now row) c.devices } in
      (
        map_err DeviceAuthenticationError.store (load_device device_id c') >>= λ found. elim found [
          | none ↦ err DeviceAuthenticationError.invalid_credential
          | some r ↦ ok r
        ],
        c',
      )

  -- The checks of `authenticate_device` on the row.
  unfoldable pub authenticate_row :
      DeviceId
      → DeviceRow o.Hash
      → DeviceToken
      → ℕ
      → Db o
      → Result DeviceAuthenticationError DeviceRecord × Db o
  unfolding admit
  authenticate_row device_id row token now_ms c =
      ite (o.Hash_discrete row.token_hash (o.hash_secret token))
        (elim row.revoked_at_ms [
          | some at ↦ (err DeviceAuthenticationError.revoked, c)
          | none ↦ admit device_id row (sql_u64 now_ms "device last_seen_at_ms") c
        ])
        (err DeviceAuthenticationError.invalid_credential, c)

  unfoldable pub authenticate_device :
      DeviceId → DeviceToken → ℕ → Db o → Result DeviceAuthenticationError DeviceRecord × Db o
  unfolding authenticate_row
  authenticate_device device_id token now_ms c = elim (BTreeMap.get device_id c.devices) [
    | none ↦ (err DeviceAuthenticationError.invalid_credential, c)
    | some row ↦ authenticate_row device_id row token now_ms c
  ]

  -- UPDATE devices SET revoked_at_ms, of a row that has none.
  unfoldable pub revoke_row : DeviceId → ℤ → Db o → Result StoreError Bool × Db o
  revoke_row device_id now c = elim (BTreeMap.get device_id c.devices) [
    | none ↦ (ok false, c)
    | some row ↦ elim row.revoked_at_ms [
      | some at ↦ (ok false, c)
      | none ↦ (
        ok true,
        record c {
          devices = BTreeMap.insert device_id (record row { revoked_at_ms = some now }) c.devices;
        },
      )
    ]
  ]

  unfoldable pub revoke_device : DeviceId → ℕ → Db o → Result StoreError Bool × Db o
  unfolding revoke_row
  revoke_device device_id now_ms c = elim (sql_u64 now_ms "device revoked_at_ms") [
    | err e ↦ (err e, c)
    | ok now ↦ revoke_row device_id now c
  ]
