-- ===== src/Daemon/Store/Access/Consumed.antt =====
-- The pairings of store.rs that are consumed.
use mathlib.Core.Logic.{ite}
use omp_remote.Prelude.{
  ℕ, ℤ, ◌≡◌, refl, Bool, true, false, Option, none, some, Result, ok, err, arith, ◌∙◌, Bool-cases,
  ◌⊎◌, inl, inr, String_discrete, is_some, Option-cases, map_err, ◌>>=◌,
}
use omp_remote.Prelude.BTreeMap
use omp_remote.Prelude.BTreeMap.{contains_key, get-insert}
use omp_remote.Protocol.Id.{DeviceId, PairingId, ServerId, new_identifier}
use omp_remote.Protocol.Frame.Types.{Payloads, DeviceToken, PairingSecret, DeviceDescriptor}
use omp_remote.Daemon.Store.Types.{Outside, PairingRow, StoreError, PairingError}
use omp_remote.Daemon.Store.Columns.{sql_u64, wire_u64}
use omp_remote.Daemon.Store.Operations.Ops.{Db}
use omp_remote.Daemon.Store.Devices.Ops.{insert_row}
use omp_remote.Daemon.Store.Pairing.Ops.{
  consume_pairing, exchange_pairing, redeem, paired_row, mark_consumed, RawPairing, decode_pairing,
  check_pairing,
}
use omp_remote.Daemon.Store.Access.Untouched.{Kept, insert_row-Kept}

abbrev pub is_ok : {E A : Type 0} → Result E A → Bool
is_ok (ok a) = true
is_ok (err e) = false

abbrev pub same_pairing : PairingId → PairingId → Bool
same_pairing a b = ite (String_discrete a b) true false

module _ {P : Payloads} (o : Outside P) where
  -- Whether the pairing's row says that it was consumed.
  abbrev pub consumed_row : Option (PairingRow o.Hash) → Bool
  consumed_row none = false
  consumed_row (some row) = is_some row.consumed_at_ms

  abbrev pub IsConsumed : PairingId → Db o → Type 0
  IsConsumed k c = consumed_row (BTreeMap.get k c.pairing_secrets) ≡ true

  -- A consumed row does not decode to one that passes the check.
  consumed_decoded :
      (id : PairingId) (row : PairingRow o.Hash) (raw : RawPairing o.Hash)
      → decode_pairing o id row ≡ ok raw
      → is_some raw.consumed_at_ms ≡ is_some row.consumed_at_ms
  unfolding decode_pairing new_identifier wire_u64
  consumed_decoded id row raw h = ground arith

  consumed_checked :
      (secret : PairingSecret) (t : ℕ) (raw : RawPairing o.Hash)
      → is_some raw.consumed_at_ms ≡ true
      → is_ok (check_pairing o secret t raw) ≡ false
  unfolding check_pairing
  consumed_checked secret t raw h = ground arith

  pub consumed_refused :
      (k : PairingId) (secret : PairingSecret) (t : ℕ) (c : Db o)
      → IsConsumed k c
      → is_ok (redeem o k secret t c) ≡ false
  unfolding redeem
  consumed_refused k secret t c h = elim (Option-cases (BTreeMap.get k c.pairing_secrets)) [
    | inl f ↦ cc (rw f at h)
    | inr (row, f) ↦ rw (f, redeem) (decoded row (rw f at h) (decode_pairing o k row) refl)
  ]
    where
      decoded :
          (row : PairingRow o.Hash)
          → is_some row.consumed_at_ms ≡ true
          → (d : Result StoreError (RawPairing o.Hash)) → decode_pairing o k row ≡ d
          → is_ok {A = PairingRow o.Hash × RawPairing o.Hash × ℤ} (
              map_err PairingError.store (decode_pairing o k row) >>= λ raw.
              check_pairing o secret t raw >>= λ _.
              map_err PairingError.store (sql_u64 t "pairing consumed_at_ms") >>= λ now.
              ok (row, raw, now))
            ≡ false
      decoded row g (err e) d = rw d refl
      decoded row g (ok raw) d =
          rw d (ground (arith, consumed_checked secret t raw (consumed_decoded k row raw d ∙ g)))

  pub kept-consumed :
      (k : PairingId) (m m' : BTreeMap.BTreeMap (PairingRow o.Hash))
      → m' ≡ m
      → consumed_row (BTreeMap.get k m) ≡ true
      → consumed_row (BTreeMap.get k m') ≡ true
  kept-consumed k m m' e h = rw e h

  pub marked-IsConsumed :
      (k id : PairingId) (row : PairingRow o.Hash) (now : ℤ) (c : Db o)
      → IsConsumed k c
      → IsConsumed k (mark_consumed o id row now c)
  marked-IsConsumed k id row now c h =
      ground (arith, get-insert id k (record row { consumed_at_ms = some now }) c.pairing_secrets)

  pub mark-marks :
      (k id : PairingId) (row : PairingRow o.Hash) (now : ℤ) (c : Db o)
      → same_pairing id k ≡ true
      → IsConsumed k (mark_consumed o id row now c)
  mark-marks k id row now c h =
      ground (arith, get-insert id k (record row { consumed_at_ms = some now }) c.pairing_secrets)

  -- What a consumption and an exchange do to the pairings: nothing, or they mark a row.
  pub consume_outcome :
      (id : PairingId) (secret : PairingSecret) (t : ℕ) (c : Db o)
      → ((is_ok (consume_pairing o id secret t c).0 ≡ false)
          × Kept o c (consume_pairing o id secret t c).1)
        ⊎ ((is_ok (redeem o id secret t c) ≡ true)
            × (row : PairingRow o.Hash) × (now : ℤ) × Kept o
                (mark_consumed o id row now c)
                (consume_pairing o id secret t c).1)
  unfolding consume_pairing
  consume_outcome id secret t c = go (redeem o id secret t c) refl
    where
      go :
          (x : Result PairingError (PairingRow o.Hash × RawPairing o.Hash × ℤ))
          → redeem o id secret t c ≡ x
          → ((is_ok (consume_pairing o id secret t c).0 ≡ false)
              × Kept o c (consume_pairing o id secret t c).1)
            ⊎ ((is_ok (redeem o id secret t c) ≡ true)
                × (row : PairingRow o.Hash) × (now : ℤ) × Kept o
                    (mark_consumed o id row now c)
                    (consume_pairing o id secret t c).1)
      go (err e) x = inl (rw (x, consume_pairing) refl, rw (x, consume_pairing) refl)
      go (ok (row, raw, now)) x = inr (rw x refl, row, now, rw (x, consume_pairing) refl)

  pub exchange_outcome :
      (server : ServerId) (device : DeviceId) (token : DeviceToken) (id : PairingId)
      (secret : PairingSecret) (descriptor : DeviceDescriptor) (t : ℕ) (c : Db o)
      → let (r, c') = exchange_pairing o server device token id secret descriptor t c in
        ((is_ok r ≡ false) × Kept o c c')
        ⊎ ((is_ok (redeem o id secret t c) ≡ true)
            × (row : PairingRow o.Hash) × (now : ℤ) × Kept o (mark_consumed o id row now c) c')
  unfolding exchange_pairing insert_row
  exchange_outcome server device token id secret descriptor t c = go (redeem o id secret t c) refl
    where
      go :
          (x : Result PairingError (PairingRow o.Hash × RawPairing o.Hash × ℤ))
          → redeem o id secret t c ≡ x
          → let (r, c') = exchange_pairing o server device token id secret descriptor t c in
            ((is_ok r ≡ false) × Kept o c c')
            ⊎ ((is_ok (redeem o id secret t c) ≡ true)
                × (row : PairingRow o.Hash) × (now : ℤ) × Kept o (mark_consumed o id row now c) c')
      go (err e) x = inl (rw (x, exchange_pairing) refl, rw (x, exchange_pairing) refl)
      go (ok (row, raw, now)) x = elim (Bool-cases (contains_key device c.devices)) [
        | inl d ↦ inl (rw (x, d, exchange_pairing) refl, rw (x, d, exchange_pairing) refl)
        | inr d ↦ inr (
          rw x refl,
          row,
          now,
          rw (x, d, exchange_pairing)
              (insert_row-Kept o device (paired_row o raw descriptor token now)
                (mark_consumed o id row now c)),
        )
      ]
