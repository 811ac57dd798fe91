-- ===== src/Daemon/Greeting/Admitted.antt =====
-- Whom `authenticate_first_frame` of crates/ompd/src/server.rs admits.
use omp_remote.Prelude.{
  ℕ, ◌≡◌, ◌≤◌, refl, ◌∙◌, subst, Option, none, some, Result, ok, err, length, arith, inl, inr, ap,
  Option-cases, Result-cases,
}
use omp_remote.Protocol.Id.{DeviceId, ServerId}
use omp_remote.Protocol.Frame.Types.{
  Payloads, ProtocolVersion, ClientHello, ClientFrame, ClientAuthentication, pair, device,
  DeviceCredential, DeviceToken,
}
use omp_remote.Protocol.Codec.{Bytes, Cbor, FrameLimits}
use omp_remote.Daemon.Store.Types.{Outside, DeviceRecord, StoreError}
use omp_remote.Daemon.Store.Operations.Ops.{Db}
use omp_remote.Daemon.Store.Devices.Ops.{authenticate_device, load_device}
use omp_remote.Daemon.Store.Pairing.Ops.{exchange_pairing}
use omp_remote.Daemon.Greeting.{
  Arrival, timed_out, ended, failed, message, binary, ping, pong, text, close, Authenticated,
  first_hello, authenticate, authenticate_first_frame, known_device, greeted,
}
use omp_remote.Daemon.Greeting.Current.{
  IsCurrent, loaded, authenticate_device-IsCurrent, exchange_pairing-row,
}

some_same : {A : Type 0} {a b : A} → some a ≡ some b → a ≡ b
some_same h = cc

same_pair : {A B : Type 0} (p : A × B) {a : A} {b : B} → p.0 ≡ a → p.1 ≡ b → p ≡ (a, b)
same_pair p {a = a} f g = ap (λ x. (x, p.1)) f ∙ ap (λ y. (a, y)) g

first_hello-bytes :
    {P : Payloads} (cbor : Cbor (ClientFrame P)) (limits : FrameLimits) (arrival : Arrival)
    (r : ClientHello × ProtocolVersion)
    → first_hello cbor limits arrival ≡ some r
    → (bytes : Bytes) × (arrival ≡ message (binary bytes)) × (length bytes ≤ limits.pre_auth_limit)
unfolding first_hello
first_hello-bytes cbor limits timed_out r h = cc
first_hello-bytes cbor limits ended r h = cc
first_hello-bytes cbor limits failed r h = cc
first_hello-bytes cbor limits (message (binary bytes)) r h = (bytes, refl, ground arith)
first_hello-bytes cbor limits (message (ping bytes)) r h = cc
first_hello-bytes cbor limits (message (pong bytes)) r h = cc
first_hello-bytes cbor limits (message (text words)) r h = cc
first_hello-bytes cbor limits (message close) r h = cc

module _ {P : Payloads} (o : Outside P) where
  known_device-ok :
      (r : Result StoreError (Option DeviceRecord)) (credential : Option DeviceCredential)
      (a : Authenticated)
      → known_device o r credential ≡ some a
      → r ≡ ok (some a.device)
  known_device-ok (ok (some d)) credential a h = ap (λ x. ok (some x.device)) (some_same h)
  known_device-ok (ok none) credential a h = cc
  known_device-ok (err e) credential a h = cc

  greeted-some :
      (h' : ClientHello) (v' : ProtocolVersion) (r : Option Authenticated × Db o) {c' : Db o}
      {h : ClientHello} {v : ProtocolVersion} {a : Authenticated}
      → greeted o h' v' r ≡ (some (h, v, a), c')
      → (h' ≡ h) × (r ≡ (some a, c'))
  greeted-some h' v' (none, c) e = cc
  greeted-some h' v' (some a', c) e =
      let made = some_same (ap (λ x. x.0) e) in
      (ap (λ x. x.0) made, same_pair (some a', c) (ap (λ x. some x.2) made) (ap (λ x. x.1) e))

  module _ (server_id : ServerId) (fresh_id : DeviceId) (fresh_token : DeviceToken) where
    -- The token that the hello shows, or that its pairing is exchanged for.
    abbrev pub token_of : ClientAuthentication → DeviceToken
    token_of (device device_id token) = token
    token_of (pair pairing_id secret descriptor) = fresh_token

    authenticate-IsCurrent :
        (now_ms : ℕ) (shown : ClientAuthentication) (c c' : Db o) (a : Authenticated)
        → authenticate o now_ms server_id fresh_id fresh_token shown c ≡ (some a, c')
        → IsCurrent o a.device (token_of shown) c'
    unfolding authenticate
    authenticate-IsCurrent now_ms (device device_id token) c c' a h =
        elim (Result-cases (authenticate_device o device_id token now_ms c).0) [
          | inr (e, f) ↦ cc (rw (f, authenticate) at h)
          | inl (d, f) ↦
              let g = rw (f, authenticate) at h in
              let made = some_same (ap (λ x. x.0) g) in
              subst (λ y. IsCurrent o y token c') (ap (λ x. x.device) made)
                (authenticate_device-IsCurrent o device_id token now_ms c c' d
                  (same_pair (authenticate_device o device_id token now_ms c) f (ap (λ x. x.1) g)))
        ]
    authenticate-IsCurrent now_ms (pair pairing_id secret descriptor) c c' a h =
        elim (Result-cases
          (exchange_pairing o server_id fresh_id fresh_token pairing_id secret descriptor now_ms
            c).0) [
              | inr (e, f) ↦ cc (rw (f, authenticate) at h)
              | inl (credential, f) ↦
                  let g = rw (f, authenticate) at h in
                  let exchanged =
                    same_pair
                      (exchange_pairing o server_id fresh_id fresh_token pairing_id secret
                        descriptor now_ms c)
                      f (ap (λ x. x.1) g) in
                  let (row, found, hashed, here) =
                    exchange_pairing-row o server_id fresh_id fresh_token pairing_id secret
                      descriptor now_ms c c' credential exchanged in
                  loaded o credential.device_id fresh_token row c' a.device found hashed here (
                    subst (λ x. load_device o credential.device_id x ≡ ok (some a.device))
                      (ap (λ x. x.1) g) (known_device-ok _ (some credential) a (ap (λ x. x.0) g)))
            ]

    -- A connection that is admitted began with a binary message within the limit for those that
    -- are not authenticated. The store has its device, which is not revoked, with the hash of the
    -- token that the hello shows, or that its pairing was exchanged for.
    pub admitted :
        (now_ms : ℕ) (cbor : Cbor (ClientFrame P)) (limits : FrameLimits) (arrival : Arrival)
        (c c' : Db o) (h : ClientHello) (v : ProtocolVersion) (a : Authenticated)
        → authenticate_first_frame o now_ms server_id fresh_id fresh_token cbor limits arrival c
          ≡ (some (h, v, a), c')
        → IsCurrent o a.device (token_of h.authentication) c'
          × ((bytes : Bytes) × (arrival ≡ message (binary bytes))
              × (length bytes ≤ limits.pre_auth_limit))
    unfolding authenticate_first_frame
    admitted now_ms cbor limits arrival c c' h v a e =
        elim (Option-cases (first_hello cbor limits arrival)) [
          | inl f ↦ cc (rw (f, authenticate_first_frame) at e)
          | inr ((h', v'), f) ↦
              let (same, shown) =
                greeted-some h' v'
                  (authenticate o now_ms server_id fresh_id fresh_token h'.authentication c)
                  (rw (f, authenticate_first_frame) at e) in
              (
                authenticate-IsCurrent now_ms h.authentication c c' a (
                    subst
                      (λ x.
                        authenticate o now_ms server_id fresh_id fresh_token x.authentication c
                        ≡ (some a, c'))
                      same shown),
                first_hello-bytes cbor limits arrival (h', v') f,
              )
        ]
