-- ===== src/Daemon/Greeting/Current.antt =====
-- The rows of the devices that crates/ompd/src/persistence/store.rs admits, as server.rs meets them.
use omp_remote.Prelude.{
  ℕ, ℤ, String, ◌≡◌, refl, sym, ◌∙◌, subst, Option, none, some, Result, ok, err, arith, inl, inr,
  ap, Bool-cases, Option-cases, Result-cases, >>=-eq-ok, ok-injective, transpose, map_err,
}
use omp_remote.Prelude.BTreeMap
use omp_remote.Prelude.BTreeMap.{contains_key, get-insert_same}
use omp_remote.Protocol.Id.{DeviceId, PairingId, ServerId, new_identifier}
use omp_remote.Protocol.Frame.Types.{
  Payloads, DeviceCredential, DeviceToken, DeviceDescriptor, PairingSecret,
}
use omp_remote.Daemon.Store.Types.{
  Outside, DeviceRecord, DeviceRow, StoreError, DeviceAuthenticationError,
}
use omp_remote.Daemon.Store.Columns.{sql_u64, wire_u64, decode_platform}
use omp_remote.Daemon.Store.Operations.Ops.{Db}
use omp_remote.Daemon.Store.Devices.Ops.{
  authenticate_device, authenticate_row, admit, seen_at, load_device, decode_device,
  corrupt_identifier, insert_row,
}
use omp_remote.Daemon.Store.Pairing.Ops.{exchange_pairing, redeem, paired_row}

identifier_same :
    (label value : String) {id : String}
    → map_err corrupt_identifier (new_identifier label value) ≡ ok id
    → value ≡ id
unfolding new_identifier
identifier_same label value h = ground arith

map_err-ok : {E F A : Type 0} (f : E → F) (r : Result E A) {a : A} → map_err f r ≡ ok a → r ≡ ok a
map_err-ok f (ok a) h = ap ok (ok-injective h)
map_err-ok f (err e) h = cc

module _ {P : Payloads} (o : Outside P) where
  decode_device-id :
      (id : DeviceId) (row : DeviceRow o.Hash) (d : DeviceRecord)
      → decode_device o id row ≡ ok d
      → id ≡ d.device_id
  unfolding decode_device
  decode_device-id id row d h =
      let (id', named, h1) =
        >>=-eq-ok (map_err corrupt_identifier (new_identifier "device ID" id)) _ h in
      let (_, _, h2) = >>=-eq-ok (decode_platform row.platform) _ h1 in
      let (_, _, h3) = >>=-eq-ok (wire_u64 row.created_at_ms "device created_at_ms") _ h2 in
      let (_, _, h4) =
        >>=-eq-ok (transpose (λ v. wire_u64 v "device last_seen_at_ms") row.last_seen_at_ms) _ h3 in
      let (_, _, h5) =
        >>=-eq-ok (transpose (λ v. wire_u64 v "device revoked_at_ms") row.revoked_at_ms) _ h4 in
      identifier_same "device ID" id named ∙ ap (λ x. x.device_id) (ok-injective h5)

  ok_some :
      {d d' : DeviceRecord}
      → ◌≡◌ {A = Result StoreError (Option DeviceRecord)} (ok (some d)) (ok (some d'))
      → ◌≡◌ {A = Result StoreError DeviceRecord} (ok d) (ok d')
  ok_some h = cc

  -- The device's row has the hash of the token, is not revoked, and reads as the record.
  abbrev pub IsCurrent : DeviceRecord → DeviceToken → Db o → Type 0
  IsCurrent d token c =
      (row : DeviceRow o.Hash) × (BTreeMap.get d.device_id c.devices ≡ some row)
      × (row.token_hash ≡ o.hash_secret token)
      × (row.revoked_at_ms ≡ none)
      × (decode_device o d.device_id row ≡ ok d)

  pub loaded :
      (id : DeviceId) (token : DeviceToken) (row : DeviceRow o.Hash) (c : Db o) (d : DeviceRecord)
      → BTreeMap.get id c.devices ≡ some row
      → row.token_hash ≡ o.hash_secret token
      → row.revoked_at_ms ≡ none
      → load_device o id c ≡ ok (some d)
      → IsCurrent d token c
  unfolding load_device
  loaded id token row c d found hashed here h =
      let (d', e, g) = >>=-eq-ok (decode_device o id row) _ (rw (found, load_device) at h) in
      let read : decode_device o id row ≡ ok d = e ∙ ok_some g in
      subst
        (λ i.
          (row' : DeviceRow o.Hash) × (BTreeMap.get i c.devices ≡ some row')
          × (row'.token_hash ≡ o.hash_secret token)
          × (row'.revoked_at_ms ≡ none)
          × (decode_device o i row' ≡ ok d))
        (decode_device-id id row d read) (row, found, hashed, here, read)

  admit-IsCurrent :
      (id : DeviceId) (token : DeviceToken) (row : DeviceRow o.Hash) (now : Result StoreError ℤ)
      (c c' : Db o) (d : DeviceRecord)
      → row.token_hash ≡ o.hash_secret token
      → row.revoked_at_ms ≡ none
      → admit o id row now c ≡ (ok d, c')
      → IsCurrent d token c'
  unfolding admit
  admit-IsCurrent id token row (err e) c c' d hashed here h = cc
  admit-IsCurrent id token row (ok now) c c' d hashed here h =
      let c1 = record c { devices = BTreeMap.insert id (seen_at o now row) c.devices } in
      let (found, e, g) =
        >>=-eq-ok (map_err DeviceAuthenticationError.store (load_device o id c1)) _
          (ap (λ x. x.0) h) in
      subst (λ x. IsCurrent d token x) (ap (λ x. x.1) h)
        (loaded id token (seen_at o now row) c1 d (get-insert_same id (seen_at o now row) c.devices)
          hashed here
          (map_err-ok DeviceAuthenticationError.store (load_device o id c1) e
            ∙ ap ok (is_found found g)))
    where
      is_found :
          (found : Option DeviceRecord)
          → ◌≡◌ {A = Result DeviceAuthenticationError DeviceRecord}
              (elim found [
                | none ↦ err DeviceAuthenticationError.invalid_credential
                | some r ↦ ok r
              ])
              (ok d)
          → found ≡ some d
      is_found none g = cc
      is_found (some r) g = cc

  authenticate_row-checked :
      (id : DeviceId) (row : DeviceRow o.Hash) (token : DeviceToken) (now_ms : ℕ) (c c' : Db o)
      (d : DeviceRecord)
      → authenticate_row o id row token now_ms c ≡ (ok d, c')
      → (row.token_hash ≡ o.hash_secret token)
        × (row.revoked_at_ms ≡ none)
        × (admit o id row (sql_u64 now_ms "device last_seen_at_ms") c ≡ (ok d, c'))
  unfolding authenticate_row
  authenticate_row-checked id row token now_ms c c' d h = (ground arith, ground arith, ground arith)

  pub authenticate_device-IsCurrent :
      (id : DeviceId) (token : DeviceToken) (now_ms : ℕ) (c c' : Db o) (d : DeviceRecord)
      → authenticate_device o id token now_ms c ≡ (ok d, c')
      → IsCurrent d token c'
  unfolding authenticate_device
  authenticate_device-IsCurrent id token now_ms c c' d h =
      elim (Option-cases (BTreeMap.get id c.devices)) [
        | inl f ↦ cc (rw (f, authenticate_device) at h)
        | inr (row, f) ↦
            let (hashed, here, g) =
              authenticate_row-checked id row token now_ms c c' d
                (rw (f, authenticate_device) at h) in
            admit-IsCurrent id token row (sql_u64 now_ms "device last_seen_at_ms") c c' d hashed
              here g
      ]

  module _ (server_id : ServerId) (fresh_id : DeviceId) (fresh_token : DeviceToken) where
    pub exchange_pairing-row :
        (pairing_id : PairingId) (secret : PairingSecret) (descriptor : DeviceDescriptor)
        (now_ms : ℕ) (c c' : Db o) (credential : DeviceCredential)
        → exchange_pairing o server_id fresh_id fresh_token pairing_id secret descriptor now_ms c
          ≡ (ok credential, c')
        → (row : DeviceRow o.Hash) × (BTreeMap.get credential.device_id c'.devices ≡ some row)
          × (row.token_hash ≡ o.hash_secret fresh_token)
          × (row.revoked_at_ms ≡ none)
    unfolding exchange_pairing insert_row
    exchange_pairing-row pairing_id secret descriptor now_ms c c' credential h =
        elim (Result-cases (redeem o pairing_id secret now_ms c)) [
          | inr (e, f) ↦ cc (rw (f, exchange_pairing) at h)
          | inl ((row, raw, now), f) ↦ elim (Bool-cases (contains_key fresh_id c.devices)) [
            | inl hit ↦ cc (rw (f, exchange_pairing, insert_row, hit) at h)
            | inr miss ↦
                let g = rw (f, exchange_pairing, insert_row, miss) at h in
                let new_row = paired_row o raw descriptor fresh_token now in
                (
                  new_row,
                  rw
                      (
                        sym (ap (λ x. x.device_id) (ok-injective (ap (λ x. x.0) g))),
                        sym (ap (λ x. x.1.devices) g),
                        insert_row,
                        miss,
                      )
                      (get-insert_same fresh_id new_row c.devices),
                  refl,
                  refl,
                )
          ]
        ]
