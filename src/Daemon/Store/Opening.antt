-- ===== src/Daemon/Store/Opening.antt =====
-- What store.rs does when a store is opened: the migration, the recovery and the server's ID.
use omp_remote.Prelude.{
  ℕ, ℤ, pos, negsuc, String, Bool, false, Option, none, some, Result, ok, err, ◌≡◌, ◌≢◌, ◌≤◌,
  map_err, if◌then◌else◌, arith,
}
use omp_remote.Prelude.{i64_max, ltb, leb}
use omp_remote.Protocol.Id.{new_identifier}
use omp_remote.Protocol.Frame.Types.{Payloads}
use omp_remote.Daemon.Store.Types.{Outside, StoreError, unsupported_database_version}
use omp_remote.Daemon.Store.Columns.{sql_u64}
use omp_remote.Daemon.Store.Devices.Ops.{corrupt_identifier}
use omp_remote.Daemon.Store.Operations.Ops.{Db}
use omp_remote.Daemon.Store.Recovery.{recover_interrupted}

abbrev pub database_version : ℕ
database_version = 1

-- The database file: `PRAGMA user_version`, the row `server_id` of the table `metadata`, and the
-- other tables, which are empty where they do not exist.
pub record Database {P : Payloads} (o : Outside P) : Type 0 where
  pub user_version : ℤ
  pub metadata_server_id : Option String
  pub tables : Db o

abbrev pub is_newer_version : ℤ → Bool
is_newer_version (pos n) = ltb database_version n
is_newer_version (negsuc n) = false

abbrev pub is_fresh_version : ℤ → Bool
is_fresh_version (pos n) = leb n 0
is_fresh_version (negsuc n) = false

module _ {P : Payloads} (o : Outside P) where
  -- SCHEMA makes the tables that are not there, and sets the version.
  unfoldable pub migrate : Database o → Result StoreError (Database o)
  migrate d =
      if is_newer_version d.user_version
      then err (unsupported_database_version d.user_version)
      else ok (
          if is_fresh_version d.user_version
          then record d { user_version = pos database_version }
          else d)

  -- `load_or_create_server_id`, where `fresh` is what `Uuid::new_v4` gives.
  unfoldable pub load_or_create_server_id :
      String → Database o → Result StoreError String × Database o
  unfolding new_identifier
  load_or_create_server_id fresh d = elim d.metadata_server_id [
    | some id ↦ (map_err corrupt_identifier (new_identifier "server ID" id), d)
    | none ↦ (ok fresh, record d { metadata_server_id = some fresh })
  ]

  -- `initialize`: the statements before the one that fails stay done.
  unfoldable pub initialize : ℕ → String → Database o → Result StoreError String × Database o
  unfolding migrate load_or_create_server_id
  initialize now_ms fresh d = elim (migrate d) [
    | err e ↦ (err e, d)
    | ok migrated ↦ elim (recover_interrupted o now_ms migrated.tables) [
      | err e ↦ (err e, migrated)
      | ok recovered ↦ load_or_create_server_id fresh (record migrated { tables = recovered })
    ]
  ]

  -- A store that was opened without an error keeps its server ID: opened again, at a time that
  -- SQLite's integers hold, it has the same one, whatever ID would be made for a new store; the ID
  -- that the first opening makes for a new store is not empty.
  pub initialize_again :
      (now_ms later_ms : ℕ) (fresh other id : String) (d : Database o)
      → fresh ≢ ""
      → later_ms ≤ i64_max
      → (initialize now_ms fresh d).0 ≡ ok id
      → (initialize later_ms other (initialize now_ms fresh d).1).0 ≡ ok id
  unfolding initialize migrate load_or_create_server_id new_identifier recover_interrupted sql_u64
  initialize_again now_ms later_ms fresh other id d named fits h = ground arith
