-- ===== src/Daemon/Store/Access.antt =====
-- The calls of store.rs upon devices and pairings, one after the other.
use omp_remote.Prelude.{ℕ, String, List, [], ◌∷◌}
use omp_remote.Protocol.Id.{ServerId, DeviceId, PairingId}
use omp_remote.Protocol.Frame.Types.{
  Payloads, PairingSecret, DeviceToken, DeviceScopes, DeviceDescriptor,
}
use omp_remote.Daemon.Store.Types.{Outside, DeviceRecord}
use omp_remote.Daemon.Store.Operations.Ops.{Db}
use omp_remote.Daemon.Store.Devices.Ops.{insert_device, authenticate_device, revoke_device}
use omp_remote.Daemon.Store.Pairing.Ops.{create_pairing, consume_pairing, exchange_pairing}
pub mod Revoked
pub mod Revocation
pub mod Untouched
pub mod Consumed
pub mod Single

-- A call with its arguments, and with what it draws at random.
pub data AccessCall : Type 0 where
  insert_call : DeviceRecord → DeviceToken → AccessCall
  authenticate_call : DeviceId → DeviceToken → ℕ → AccessCall
  revoke_call : DeviceId → ℕ → AccessCall
  create_call : PairingId → PairingSecret → String → DeviceScopes → ℕ → ℕ → AccessCall
  consume_call : PairingId → PairingSecret → ℕ → AccessCall
  exchange_call :
      ServerId
      → DeviceId
      → DeviceToken
      → PairingId
      → PairingSecret
      → DeviceDescriptor
      → ℕ
      → AccessCall

module _ {P : Payloads} (o : Outside P) where
  unfoldable pub after_access : AccessCall → Db o → Db o
  after_access (insert_call r token) c = (insert_device o r token c).1
  after_access (authenticate_call id token now) c = (authenticate_device o id token now c).1
  after_access (revoke_call id now) c = (revoke_device o id now c).1
  after_access (create_call id secret name scopes now ttl) c =
      (create_pairing o id secret name scopes now ttl c).1
  after_access (consume_call id secret now) c = (consume_pairing o id secret now c).1
  after_access (exchange_call server device token id secret descriptor now) c =
      (exchange_pairing o server device token id secret descriptor now c).1

  unfoldable pub after_accesses : List AccessCall → Db o → Db o
  unfolding after_access
  after_accesses [] c = c
  after_accesses (call ∷ calls) c = after_accesses calls (after_access call c)
