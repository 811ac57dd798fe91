-- ===== src/Daemon/Store/Pairing/Ops.antt =====
-- `create_pairing`, `consume_pairing` and `exchange_pairing`. The secrets, tokens and IDs that the
-- source draws at random are arguments.
use mathlib.Core.Logic.{ite}
use omp_remote.Prelude.{
  ℕ, ℤ, String, Option, none, some, Result, ok, err, ◌>>=◌, ◌>>◌, map_err, ok_or, transpose,
  if◌then◌else◌, leb, is_some, reject_if, checked_add, String_discrete,
}
use omp_remote.Prelude.BTreeMap
use omp_remote.Prelude.BTreeMap.{contains_key}
use omp_remote.Protocol.Id.{DeviceId, PairingId, ServerId, new_identifier}
use omp_remote.Protocol.Frame.Types.{
  Payloads, DeviceToken, PairingSecret, DeviceScopes, DeviceDescriptor, DeviceCredential,
}
use omp_remote.Daemon.Store.Types.{
  Outside, DeviceRow, PairingRow, PairingGrant, PairingRecord, StoreError, database,
  integer_overflow, PairingError, expired, consumed,
}
use omp_remote.Daemon.Store.Columns.{sql_u64, wire_u64, encode_platform}
use omp_remote.Daemon.Store.Operations.Ops.{Db}
use omp_remote.Daemon.Store.Devices.Ops.{corrupt_identifier, insert_row}

-- `RawPairing`, decoded.
pub record RawPairing (H : Type 0) : Type 0 where
  pub pairing_id : PairingId
  pub requested_name : String
  pub scopes : DeviceScopes
  pub secret_hash : H
  pub created_at_ms : ℕ
  pub expires_at_ms : ℕ
  pub consumed_at_ms : Option ℕ

module _ {P : Payloads} (o : Outside P) where
  unfoldable pub decode_pairing :
      PairingId → PairingRow o.Hash → Result StoreError (RawPairing o.Hash)
  unfolding new_identifier
  decode_pairing pairing_id row =
      map_err corrupt_identifier (new_identifier "pairing ID" pairing_id) >>= λ id.
      wire_u64 row.created_at_ms "pairing created_at_ms" >>= λ created.
      wire_u64 row.expires_at_ms "pairing expires_at_ms" >>= λ expires.
      transpose (λ v. wire_u64 v "pairing consumed_at_ms") row.consumed_at_ms >>= λ gone.
      ok (record {
        pairing_id = id;
        requested_name = row.requested_name;
        scopes = row.scopes;
        secret_hash = row.secret_hash;
        created_at_ms = created;
        expires_at_ms = expires;
        consumed_at_ms = gone;
      })

  -- What `consume_pairing` and `exchange_pairing` check, in this order.
  unfoldable pub check_pairing :
      PairingSecret → ℕ → RawPairing o.Hash → Result PairingError (Unit {0})
  check_pairing secret now_ms raw = do
    ite (o.Hash_discrete raw.secret_hash (o.hash_secret secret)) (ok tt)
        (err PairingError.invalid_credential)
    reject_if (is_some raw.consumed_at_ms) consumed
    reject_if (leb raw.expires_at_ms now_ms) expired

  -- The row, decoded and checked, and the time to write.
  unfoldable pub redeem :
      PairingId
      → PairingSecret
      → ℕ
      → Db o
      → Result PairingError (PairingRow o.Hash × RawPairing o.Hash × ℤ)
  unfolding decode_pairing check_pairing
  redeem pairing_id secret now_ms c = do
    row ← ok_or (BTreeMap.get pairing_id c.pairing_secrets) PairingError.invalid_credential
    raw ← map_err PairingError.store (decode_pairing pairing_id row)
    check_pairing secret now_ms raw
    now ← map_err PairingError.store (sql_u64 now_ms "pairing consumed_at_ms")
    ok (row, raw, now)

  -- UPDATE pairing_secrets SET consumed_at_ms, of a row that has none: the count is 1, since the
  -- check has seen the row in the same transaction.
  abbrev pub mark_consumed : PairingId → PairingRow o.Hash → ℤ → Db o → Db o
  mark_consumed pairing_id row now c = record c {
    pairing_secrets =
        BTreeMap.insert pairing_id (record row { consumed_at_ms = some now }) c.pairing_secrets;
  }

  unfoldable pub consume_pairing :
      PairingId → PairingSecret → ℕ → Db o → Result PairingError PairingRecord × Db o
  unfolding redeem
  consume_pairing pairing_id secret now_ms c = elim (redeem pairing_id secret now_ms c) [
    | err e ↦ (err e, c)
    | ok (row, raw, now) ↦ (
      ok (record {
        pairing_id = raw.pairing_id;
        requested_name = raw.requested_name;
        scopes = raw.scopes;
        created_at_ms = raw.created_at_ms;
        expires_at_ms = raw.expires_at_ms;
        consumed_at_ms = some now_ms;
      }),
      mark_consumed pairing_id row now c,
    )
  ]

  -- The row of the new device. An empty requested name is the descriptor's.
  abbrev pub paired_row : RawPairing o.Hash → DeviceDescriptor → DeviceToken → ℤ → DeviceRow o.Hash
  paired_row raw descriptor token now = record {
    name = ite (String_discrete raw.requested_name "") descriptor.name raw.requested_name;
    platform = encode_platform descriptor.platform;
    scopes = raw.scopes;
    token_hash = o.hash_secret token;
    created_at_ms = now;
    last_seen_at_ms = some now;
    revoked_at_ms = none;
  }

  -- A transaction: if the INSERT fails, the pairing is not consumed either.
  unfoldable pub exchange_pairing :
      ServerId
      → DeviceId
      → DeviceToken
      → PairingId
      → PairingSecret
      → DeviceDescriptor
      → ℕ
      → Db o
      → Result PairingError DeviceCredential × Db o
  unfolding redeem insert_row
  exchange_pairing server_id device_id token pairing_id secret descriptor now_ms c =
      elim (redeem pairing_id secret now_ms c) [
        | err e ↦ (err e, c)
        | ok (row, raw, now) ↦
            let (r, c') =
              insert_row o device_id (paired_row raw descriptor token now)
                (mark_consumed pairing_id row now c) in
            elim r [
              | err e ↦ (err (PairingError.store e), c)
              | ok _ ↦ (
                ok (record {
                  server_id = server_id;
                  device_id = device_id;
                  token = token;
                  scopes = raw.scopes;
                }),
                c',
              )
            ]
      ]

  unfoldable pub pairing_row :
      PairingSecret → String → DeviceScopes → ℕ → ℕ → Result StoreError (ℕ × PairingRow o.Hash)
  pairing_row secret requested_name scopes now_ms ttl_ms = do
    expires_at_ms ← ok_or (checked_add now_ms ttl_ms) (integer_overflow "pairing expiry")
    created ← sql_u64 now_ms "pairing created_at_ms"
    expires ← sql_u64 expires_at_ms "pairing expires_at_ms"
    ok (
      expires_at_ms,
      record {
        requested_name = requested_name;
        scopes = scopes;
        secret_hash = o.hash_secret secret;
        created_at_ms = created;
        expires_at_ms = expires;
        consumed_at_ms = none;
      },
    )

  unfoldable pub create_pairing :
      PairingId
      → PairingSecret
      → String
      → DeviceScopes
      → ℕ
      → ℕ
      → Db o
      → Result StoreError PairingGrant × Db o
  unfolding pairing_row
  create_pairing pairing_id secret requested_name scopes now_ms ttl_ms c =
      elim (pairing_row secret requested_name scopes now_ms ttl_ms) [
        | err e ↦ (err e, c)
        | ok (expires_at_ms, row) ↦
            if contains_key pairing_id c.pairing_secrets then (err database, c) else (
              ok (record {
                pairing_id = pairing_id;
                secret = secret;
                expires_at_ms = expires_at_ms;
              }),
              record c { pairing_secrets = BTreeMap.insert pairing_id row c.pairing_secrets },
            )
      ]
