-- ===== src/Client/Connection/Answers/Sessions.antt =====
-- One request of crates/omp-control-client/src/client.rs, through the steps of the task.
use omp_remote.Prelude.{
  ℕ, ◌≡◌, ◌≢◌, refl, Bool, true, false, ◌||◌, not, String, Option, none, some, List, [], Result, ok,
  err, inl, inr, Option-cases, Bool-cases, Result-cases, ◌>>=◌, map_err, ok_or, ap,
}
use omp_remote.Protocol.Id.{OperationId}
use omp_remote.Protocol.Frame.Types.{
  Payloads, ClientAuthentication, ServerWelcome, DeviceCredential,
}
use omp_remote.Client.Connection.Types.{
  Link, ClientConfig, AuthenticationSource, ConnectionStatus, ClientRunError, HandshakeError,
  PendingPayload, Sender, Effect, SessionEnd, client_stopped, credential_storage,
  credential_unavailable,
}
use omp_remote.Client.Connection.Pending.{Runner, Sent, mark_pending_disconnected, fail_pending}
use omp_remote.Client.Connection.Frames.{CommandAction, Commanded, Ended, initialize_connection}
use omp_remote.Client.Connection.Handshake.{
  same_id, stored_authentication, authentication, save_credential, accept_credential, check_welcome,
  receive_welcome,
}
use omp_remote.Client.Connection.Session.{
  Input, Stage, Session, set_status, stop_with_error, authenticated_session, begin, sleep_for,
  back_off, lose, fail_handshake, greet, serve, welcomed, end_session, commanded, served, offline,
}
use omp_remote.Client.Connection.Answers.Steps.{Follows, Leaves, emitted, marked, failed}
use omp_remote.Client.Connection.Answers.Commands.{initialized}

-- A task that has stopped has nothing pending.
abbrev pub Closed : {P : Payloads} {link : Link P} → Stage link → Runner link → Type 0
Closed (Stage.finished result) r = r.pending ≡ []
Closed _ r = Unit

module _ {P : Payloads} (link : Link P) (config : ClientConfig) (key : ℕ)
    (payload : PendingPayload P) (operation_id : Option OperationId) (k : Sender) where
  abbrev Here : ℕ → Runner link → Type 0
  Here n r = Follows link key payload operation_id k n r

  abbrev pub Good : ℕ → Session link → Type 0
  Good n s = Here n s.runner × Closed s.stage s.runner

  abbrev pub LeavesInput : Input link → Type 0
  LeavesInput (Input.command c) = Leaves link key payload operation_id k c
  LeavesInput _ = Unit

  module _ (n : ℕ) where
    status_set :
        (c : ConnectionStatus) (r : Runner link) → Here n r → Here n (set_status link config c r)
    status_set c r h =
        emitted link key payload operation_id k n (Effect.broadcast _) (record r { status = c }) tt
          h

    errored :
        (e : ClientRunError) (d : ℕ) (r : Runner link)
        → Here n r
        → Good n (stop_with_error link config e d r)
    errored e d r h = (
      status_set _ (fail_pending link client_stopped r)
          (failed link key payload operation_id k n client_stopped r h),
      refl,
    )

    pub slept_for :
        (reason : Option String) (d l e : ℕ) (r : Runner link)
        → Here n r
        → Good n (sleep_for link config reason d l e r)
    slept_for reason d l e r h = (status_set _ r h, tt)

    pub lost :
        (reason : Option String) (d l e : ℕ) (r : Runner link)
        → Here n r
        → Good n (lose link config reason d l e r)
    lost reason d l e r h = (
      status_set _ (mark_pending_disconnected link r)
          (marked link key payload operation_id k n r h),
      tt,
    )

    stored :
        (c : DeviceCredential) (r : Runner link)
        → Here n r
        → Here n (stored_authentication link config c r).1
    stored c r h = elim (Bool-cases (same_id c.server_id config.server_id)) [
      | inl e ↦ rw (e) h
      | inr e ↦ rw (e) h
    ]

    authenticated_by :
        (x : Result ClientRunError ClientAuthentication × Runner link) (d : ℕ)
        → Here n x.1
        → Good n (authenticated_session link config d x)
    authenticated_by (ok a, r) d h = (h, tt)
    authenticated_by (err e, r) d h = errored e d r h

    authentication-Here : (r : Runner link) → Here n r → Here n (authentication link config r).1
    unfolding authentication
    authentication-Here r h = go r.active_credential refl config.authentication refl
      where
        found : Result ClientRunError DeviceCredential
        found = map_err credential_storage (link.load config.server_id r.credentials) >>= λ c.
            ok_or c credential_unavailable

        go :
            (a : Option DeviceCredential)
            → r.active_credential ≡ a
            → (s : AuthenticationSource) → config.authentication ≡ s
            → Here n (authentication link config r).1
        go (some c) e s f = rw (e, authentication) h
        go none e (AuthenticationSource.pair a) f = rw (e, f, authentication) h
        go none e AuthenticationSource.stored_credential f = elim (Result-cases found) [
          | inl (c, g) ↦ rw (e, f, g, authentication) (stored c r h)
          | inr (x, g) ↦ rw (e, f, g, authentication) h
        ]

    pub begun : (d : ℕ) (r : Runner link) → Here n r → Good n (begin link config d r)
    unfolding begin
    begun d r h =
        authenticated_by (authentication link config _) d (authentication-Here _ (status_set _ r h))

    pub handshake_failed :
        (e : HandshakeError) (d : ℕ) (r : Runner link)
        → Here n r
        → Good n (fail_handshake link config e d r)
    handshake_failed (HandshakeError.transport e) d r h =
        lost (some e) d (back_off link config d) d r h
    handshake_failed (HandshakeError.fatal e) d r h = errored e d r h

    pub greeted :
        (a : ClientAuthentication) (d : ℕ) (r : Runner link)
        (x : Result String (Unit {0}) × link.Socket)
        → Here n r
        → Good n (greet link config a d r x)
    greeted a d r (ok done, socket) h = (h, tt)
    greeted a d r (err e, socket) h = handshake_failed (HandshakeError.transport e) d r h

    serving : (max d : ℕ) (x : Sent link) → Here n x.1 → Good n (serve link config max d x)
    serving max d (ok done, r, socket) h = (h, tt)
    serving max d (err e, r, socket) h = lost (some e) d d d r h

    saved :
        (c : DeviceCredential) (r : Runner link)
        → Here n r
        → Here n (save_credential link config c r).1
    saved c r h = elim (Result-cases (link.save c r.credentials).0) [
      | inl (done, e) ↦ rw (e, save_credential) h
      | inr (x, e) ↦ rw (e, save_credential) h
    ]

    credential_accepted :
        (a : ClientAuthentication) (w : ServerWelcome) (r : Runner link)
        → Here n r
        → Here n (accept_credential link config a w r).1
    unfolding accept_credential
    credential_accepted (ClientAuthentication.device id token) w r h =
        elim (Bool-cases (same_id id w.device_id)) [
          | inl e ↦ rw (e, accept_credential) h
          | inr e ↦ rw (e, accept_credential) h
        ]
    credential_accepted (ClientAuthentication.pair id secret device) w r h =
        elim (Option-cases w.issued_credential) [
          | inl e ↦ rw (e, accept_credential) h
          | inr (c, e) ↦
              elim (Bool-cases (
                not (same_id c.server_id config.server_id)
                || not (same_id c.device_id w.device_id))) [
                  | inl f ↦ rw (e, f, accept_credential) h
                  | inr f ↦ rw (e, f, accept_credential) (saved c r h)
                ]
        ]

    pub welcome_received :
        (a : ClientAuthentication) (bytes : List ℕ) (r : Runner link)
        → Here n r
        → Here n (receive_welcome link config a bytes r).1
    unfolding receive_welcome
    welcome_received a bytes r h = elim (Result-cases (check_welcome link config bytes)) [
      | inl (w, e) ↦ rw (e, receive_welcome) (credential_accepted a w r h)
      | inr (x, e) ↦ rw (e, receive_welcome) h
    ]

    pub welcoming :
        (socket : link.Socket) (d : ℕ) (x : Result HandshakeError (ServerWelcome × ℕ) × Runner link)
        → Here n x.1
        → Good n (welcomed link config socket d x)
    welcoming socket d (err e, r) h = handshake_failed e d r h
    welcoming socket d (ok (w, max), r) h =
        serving max config.reconnect.initial_delay (initialize_connection link max _ socket)
          (initialized link key payload operation_id k n max _ socket (status_set _ r h))

    pub ended :
        (x : SessionEnd) (d : ℕ) (r : Runner link)
        → Here n r
        → (x ≡ SessionEnd.shutdown → r.pending ≡ [])
        → Good n (end_session link config x d r)
    ended SessionEnd.shutdown d r h q = (status_set _ r h, q refl)
    ended (SessionEnd.reconnect reason after) d r h q =
        lost reason (elim after [ none ↦ d | some x ↦ x ]) (back_off link config d) d r h
    ended (SessionEnd.fatal e) d r h q = errored e d r h

    pub commanding :
        (max d : ℕ) (x : Commanded link)
        → Here n x.1
        → (x.0 ≡ ok CommandAction.shutdown → x.1.pending ≡ [])
        → Good n (commanded link config max d x)
    commanding max d (ok CommandAction.continue, r, socket) h q = (h, tt)
    commanding max d (ok CommandAction.shutdown, r, socket) h q =
        ended SessionEnd.shutdown d r h (λ same. q refl)
    commanding max d (err e, r, socket) h q =
        ended (SessionEnd.reconnect (some e) none) d r h (λ same. cc)

    pub serving_on :
        (max d : ℕ) (x : Ended link)
        → Here n x.1
        → x.0 ≢ some SessionEnd.shutdown
        → Good n (served link config max d x)
    serving_on max d (none, r, socket) h q = (h, tt)
    serving_on max d (some end, r, socket) h q =
        ended end d r h (λ same. absurd (q (ap (λ e. some e) same)))

    pub disconnected_by :
        (s : Session link) (x : Bool × Runner link)
        → Here n x.1
        → (x.0 ≡ true → x.1.pending ≡ [])
        → ((r : Runner link) → Closed s.stage r)
        → Good n (offline link config s x)
    disconnected_by s (true, r) h q w = (status_set _ r h, q refl)
    disconnected_by s (false, r) h q w = (h, w r)
