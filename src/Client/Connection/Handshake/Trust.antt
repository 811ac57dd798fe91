-- ===== src/Client/Connection/Handshake/Trust.antt =====
-- Which servers the handshake of crates/omp-control-client/src/client.rs accepts.
use omp_remote.Prelude.{
  ℕ, ◌<◌, ◌≤◌, ◌≡◌, true, not, String, none, List, Result, ok, err, ◌>>◌, reject_if, map_err,
  >>=-eq-ok, ok-injective, ◌==◌, arith, inl, inr, Bool-cases, Result-cases, ap, sym, ◌∙◌, ==_iff,
}
use omp_remote.Protocol.Frame.Types.{Payloads, ClientAuthentication, ServerFrame, ServerWelcome}
use omp_remote.Protocol.Codec.{decode, codec_limit, authenticated}
use omp_remote.Client.Connection.Types.{
  Link, ClientConfig, HandshakeError, server_identity_mismatch,
}
use omp_remote.Client.Connection.Pending.{Runner}
use omp_remote.Client.Connection.Handshake.{
  same_id, fatal_protocol, accept_credential, check_welcome, session_limit, negotiated,
  receive_welcome,
}

module _ {P : Payloads} (link : Link P) (config : ClientConfig) where
  same_id-eq : (a b : String) → same_id a b ≡ true → a ≡ b
  same_id-eq a b h = ground arith

  -- The frame that the bytes hold under the limit for authenticated frames.
  abbrev pub first_frame : List ℕ → Result HandshakeError (ServerFrame P)
  first_frame bytes =
      map_err (λ e. fatal_protocol (link.codec_text e))
        (decode link.incoming (codec_limit config.frame_limits authenticated) bytes)

  abbrev pub checked_frame : ServerFrame P → Result HandshakeError ServerWelcome
  checked_frame f = elim f [
    | ServerFrame.welcome w ↦
        reject_if (not (w.protocol_version == 1))
          (fatal_protocol "server selected an unsupported protocol version")
        >> reject_if (not (same_id w.server_id config.server_id))
            (HandshakeError.fatal server_identity_mismatch)
        >> ok w
    | _ ↦ err (fatal_protocol "server did not send welcome as its first frame")
  ]

  frame_checked :
      (f : ServerFrame P) (w : ServerWelcome)
      → checked_frame f ≡ ok w
      → (w.protocol_version ≡ 1) × (w.server_id ≡ config.server_id)
  frame_checked (ServerFrame.welcome v) w h = elim (Bool-cases (v.protocol_version == 1)) [
    | inr e ↦ cc (rw (e) at h)
    | inl e ↦ elim (Bool-cases (same_id v.server_id config.server_id)) [
      | inr f ↦ cc (rw (e, f) at h)
      | inl f ↦
          let same : v ≡ w = ok-injective (rw (e, f) at h) in
          (
            ap (λ x. x.protocol_version) (sym same) ∙ (==_iff v.protocol_version 1).0 e,
            ap (λ x. x.server_id) (sym same) ∙ same_id-eq v.server_id config.server_id f,
          )
    ]
  ]
  frame_checked (ServerFrame.response x) w h = cc
  frame_checked (ServerFrame.error e) w h = cc
  frame_checked (ServerFrame.pong x) w h = cc
  frame_checked (ServerFrame.server_shutdown x) w h = cc
  frame_checked (ServerFrame.snapshot x) w h = cc
  frame_checked (ServerFrame.delta x) w h = cc
  frame_checked (ServerFrame.event x) w h = cc
  frame_checked (ServerFrame.replay_gap x) w h = cc
  frame_checked (ServerFrame.interaction_request x) w h = cc

  welcome_checked :
      (bytes : List ℕ) (w : ServerWelcome)
      → check_welcome link config bytes ≡ ok w
      → (w.protocol_version ≡ 1) × (w.server_id ≡ config.server_id)
  unfolding check_welcome
  welcome_checked bytes w h =
      let (f, e, g) = >>=-eq-ok (first_frame bytes) checked_frame h in frame_checked f w g

  limited :
      (w : ServerWelcome) (max : ℕ)
      → session_limit link config w ≡ ok max
      → (0 < max) × (max ≤ config.frame_limits.post_auth_limit)
  unfolding session_limit
  limited w max h = ground arith

  negotiated_with :
      (v w : ServerWelcome) (max : ℕ) (x : Result HandshakeError (Unit {0}) × Runner link)
      → (negotiated link config v x).0 ≡ ok (w, max)
      → (record v { issued_credential = none } ≡ w) × (session_limit link config v ≡ ok max)
  negotiated_with v w max (err e, r) h = cc
  negotiated_with v w max (ok done, r) h =
      let (m, e, g) =
        >>=-eq-ok (session_limit link config v) (λ m. ok (record v { issued_credential = none }, m))
          h in
      (ap (λ x. x.0) (ok-injective g), e ∙ ap ok (ap (λ x. x.1) (ok-injective g)))

  -- A handshake that succeeds was with a server that has the configured ID and selected version 1;
  -- the welcome that is kept has no credential in it, and the limit of the session's frames is
  -- positive and within the configured limit.
  pub welcome_trusted :
      (a : ClientAuthentication) (bytes : List ℕ) (r : Runner link) (w : ServerWelcome) (max : ℕ)
      → (receive_welcome link config a bytes r).0 ≡ ok (w, max)
      → (w.server_id ≡ config.server_id)
        × (w.protocol_version ≡ 1)
        × (w.issued_credential ≡ none)
        × (0 < max)
        × (max ≤ config.frame_limits.post_auth_limit)
  unfolding receive_welcome
  welcome_trusted a bytes r w max h = elim (Result-cases (check_welcome link config bytes)) [
    | inr (e, f) ↦ cc (rw (f, receive_welcome) at h)
    | inl (v, f) ↦
        let (same, limit) =
          negotiated_with v w max (accept_credential link config a v r)
            (rw (f, receive_welcome) at h) in
        let (version, server) = welcome_checked bytes v f in
        let (positive, within) = limited v max limit in
        (
          ap (λ x. x.server_id) (sym same) ∙ server,
          ap (λ x. x.protocol_version) (sym same) ∙ version,
          ap (λ x. x.issued_credential) (sym same),
          positive,
          within,
        )
  ]
