-- ===== src/Client/Connection/Answers/Ends.antt =====
-- How a frame of the server ends a session of crates/omp-control-client/src/client.rs.
use omp_remote.Prelude.{
  ℕ, ◌≡◌, ◌≢◌, String, none, false, Option, some, List, [], ◌∷◌, ok, err, inl, inr, Option-cases,
  Result-cases, ◌∙◌,
}
use omp_remote.Protocol.Frame.Types.{Payloads, ServerFrame}
use omp_remote.Client.Reducer.{ReplicationEffect, apply}
use omp_remote.Client.Connection.Types.{Link, SessionEnd}
use omp_remote.Client.Connection.Pending.{Runner, Sent}
use omp_remote.Client.Connection.Frames.{
  frame_agent_id, send_subscription, or_reconnect, apply_effect, apply_effects, replicate,
  handle_server_frame,
}

ended_by : {a b : SessionEnd} → ◌≡◌ {A = Option SessionEnd} (some a) (some b) → a ≡ b
ended_by h = cc

module _ {P : Payloads} (link : Link P) (bad : SessionEnd)
    (unlike : (reason : Option String) → SessionEnd.reconnect reason none ≢ bad) where
  -- The session goes on or is ended otherwise.
  abbrev IsNot : Option SessionEnd → Type 0
  IsNot end = end ≢ some bad

  or_reconnect-IsNot : (x : Sent link) → IsNot (or_reconnect link x).0
  or_reconnect-IsNot (ok done, r, socket) h = cc
  or_reconnect-IsNot (err e, r, socket) h = unlike (some e) (ended_by h)

  effect-IsNot :
      (max : ℕ) (e : ReplicationEffect P) (r : Runner link) (socket : link.Socket)
      → IsNot (apply_effect link max e r socket).0
  unfolding apply_effect
  effect-IsNot max (ReplicationEffect.state_changed a) r socket h = cc
  effect-IsNot max (ReplicationEffect.event a) r socket h = cc
  effect-IsNot max (ReplicationEffect.interaction a) r socket h = cc
  effect-IsNot max (ReplicationEffect.resync_required a) r socket h =
      or_reconnect-IsNot (send_subscription link max a false _ socket) h

  effects-IsNot :
      (max : ℕ) (es : List (ReplicationEffect P)) (r : Runner link) (socket : link.Socket)
      → IsNot (apply_effects link max es r socket).0
  unfolding apply_effects
  effects-IsNot max [] r socket h = cc
  effects-IsNot max (e ∷ es) r socket h =
      let x = apply_effect link max e r socket in
      elim (Option-cases x.0) [
        | inl f ↦ effects-IsNot max es x.1 x.2 (rw (f, apply_effects) at h)
        | inr (end, f) ↦ effect-IsNot max e r socket (f ∙ (rw (f, apply_effects) at h))
      ]

  pub replicate-IsNot :
      (max : ℕ) (f : ServerFrame P) (r : Runner link) (socket : link.Socket)
      → IsNot (replicate link max f r socket).0
  unfolding replicate
  replicate-IsNot max f r socket h = elim (Result-cases (apply P r.state f).0) [
    | inl (es, e) ↦ effects-IsNot max es _ socket (rw (e, replicate) at h)
    | inr (x, e) ↦ elim (Option-cases (frame_agent_id f)) [
      | inl g ↦ cc (rw (e, g, replicate) at h)
      | inr (a, g) ↦ or_reconnect-IsNot _ (rw (e, g, replicate) at h)
    ]
  ]

module _ {P : Payloads} (link : Link P) where
  -- The session goes on or is ended otherwise than by a shutdown.
  abbrev pub IsNoShutdown : Option SessionEnd → Type 0
  IsNoShutdown end = end ≢ some SessionEnd.shutdown

  pub frame-IsNoShutdown :
      (max : ℕ) (f : ServerFrame P) (r : Runner link) (socket : link.Socket)
      → IsNoShutdown (handle_server_frame link max f r socket).0
  unfolding handle_server_frame
  frame-IsNoShutdown max (ServerFrame.response e) r socket h = cc
  frame-IsNoShutdown max (ServerFrame.error e) r socket h = cc
  frame-IsNoShutdown max (ServerFrame.pong x) r socket h = cc
  frame-IsNoShutdown max (ServerFrame.server_shutdown x) r socket h = cc
  frame-IsNoShutdown max (ServerFrame.welcome x) r socket h = cc
  frame-IsNoShutdown max (ServerFrame.snapshot x) r socket h =
      replicate-IsNot link SessionEnd.shutdown (λ reason e. cc) max (ServerFrame.snapshot x) r
        socket h
  frame-IsNoShutdown max (ServerFrame.delta x) r socket h =
      replicate-IsNot link SessionEnd.shutdown (λ reason e. cc) max (ServerFrame.delta x) r socket h
  frame-IsNoShutdown max (ServerFrame.event x) r socket h =
      replicate-IsNot link SessionEnd.shutdown (λ reason e. cc) max (ServerFrame.event x) r socket h
  frame-IsNoShutdown max (ServerFrame.replay_gap x) r socket h =
      replicate-IsNot link SessionEnd.shutdown (λ reason e. cc) max (ServerFrame.replay_gap x) r
        socket h
  frame-IsNoShutdown max (ServerFrame.interaction_request x) r socket h =
      replicate-IsNot link SessionEnd.shutdown (λ reason e. cc) max
        (ServerFrame.interaction_request x) r socket h
