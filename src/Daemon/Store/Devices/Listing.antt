-- ===== src/Daemon/Store/Devices/Listing.antt =====
-- `devices` of store.rs: all devices, in the order of the times at which they were made.
use omp_remote.Prelude.{Bool, true, false, List, [], ◌∷◌, Result, ok, ◌>>=◌, if◌then◌else◌}
use omp_remote.Prelude.BTreeMap.{BTreeMap, string_lt}
use omp_remote.Protocol.Id.{DeviceId}
use omp_remote.Protocol.Frame.Types.{Payloads}
use omp_remote.Daemon.Store.Types.{Outside, DeviceRow, DeviceRecord, StoreError}
use omp_remote.Daemon.Store.Operations.Ops.{Db}
use omp_remote.Daemon.Store.Operations.Prune.{integer_lt}
use omp_remote.Daemon.Store.Devices.Ops.{decode_device}

module _ {H : Type 0} where
  -- `ORDER BY created_at_ms, device_id`.
  abbrev pub is_listed_before : DeviceId × DeviceRow H → DeviceId × DeviceRow H → Bool
  is_listed_before (i, a) (j, b) =
      if integer_lt a.created_at_ms b.created_at_ms
      then true
      else (if integer_lt b.created_at_ms a.created_at_ms then false else string_lt i j)

  abbrev pub list_in : DeviceId × DeviceRow H → BTreeMap (DeviceRow H) → BTreeMap (DeviceRow H)
  list_in d [] = d ∷ []
  list_in d (d' ∷ ds) =
      let later = list_in d ds in if is_listed_before d d' then d ∷ d' ∷ ds else d' ∷ later

  unfoldable pub listed : BTreeMap (DeviceRow H) → BTreeMap (DeviceRow H)
  listed [] = []
  listed (d ∷ ds) = list_in d (listed ds)

module _ {P : Payloads} (o : Outside P) where
  abbrev pub decode_devices : BTreeMap (DeviceRow o.Hash) → Result StoreError (List DeviceRecord)
  decode_devices [] = ok []
  decode_devices ((device_id, row) ∷ rows) =
      decode_device o device_id row >>= λ d. decode_devices rows >>= λ rest. ok (d ∷ rest)

  unfoldable pub devices : Db o → Result StoreError (List DeviceRecord)
  unfolding listed
  devices c = decode_devices (listed c.devices)
