-- ===== src/Daemon/Outbound/Order.antt =====
-- In which order the writer of crates/ompd/src/server.rs sends what the start of a subscription emits.
use mathlib.Core.List.{append_assoc, append-nil}
use omp_remote.Prelude.{
  ℕ, ◌+◌, suc, ◌≡◌, ◌≤◌, ◌<◌, refl, sym, ◌∙◌, ap, Bool, true, some, List, [], ◌∷◌, ◌++◌, map,
  length, length-append, lt→ltb, arith,
}
use omp_remote.Protocol.State.{AgentUpdate, SubscriptionStart}
use omp_remote.Protocol.Frame.Types.{Payloads, ServerMessage, ServerFrame, non_contiguous_cursor}
use omp_remote.Protocol.Codec.{Bytes, Cbor}
use omp_remote.Daemon.Greeting.{Message}
use omp_remote.Daemon.Emit.{update_frame, start_frames}
use omp_remote.Daemon.Outbound.{
  OutboundPayload, protocol, Outbound, new_outbound, state, control, replay_gap, snapshot_frame,
  emit_update, emit_updates, emit_subscription_start, next_payload, Round, message_of, take_payload,
  run_writer,
}

length-map : {A B : Type 0} (f : A → B) (xs : List A) → length (map f xs) ≡ length xs
length-map f [] = refl
length-map f (x ∷ xs) = ap suc (length-map f xs)

new_outbound-room : (P : Payloads) (n : ℕ) → 0 < (new_outbound {P = P} n).capacity
new_outbound-room P n = ground arith

new_outbound-capacity : (P : Payloads) (n : ℕ) → n ≤ (new_outbound {P = P} n).capacity
new_outbound-capacity P n = ground arith

module _ {P : Payloads} where
  -- The payloads in the order in which the writer takes them, if no more come.
  abbrev pub in_order : Outbound P → List (OutboundPayload P)
  in_order q = q.control ++ q.response ++ q.state

  next_payload-first :
      (n : ℕ) (cs rs ss : List (OutboundPayload P)) (b : Bool) (p : OutboundPayload P)
      (ps : List (OutboundPayload P))
      → cs ++ rs ++ ss ≡ p ∷ ps
      → (q : Outbound P) × (next_payload
            (record { capacity = n; control = cs; response = rs; state = ss; receiving = b })
          ≡ some (p, q))
        × (in_order q ≡ ps)
  unfolding next_payload
  next_payload-first n (c ∷ cs) rs ss b p ps h =
      (record { capacity = n; control = cs; response = rs; state = ss; receiving = b }, cc, cc)
  next_payload-first n [] (r ∷ rs) ss b p ps h =
      (record { capacity = n; control = []; response = rs; state = ss; receiving = b }, cc, cc)
  next_payload-first n [] [] (s ∷ ss) b p ps h =
      (record { capacity = n; control = []; response = []; state = ss; receiving = b }, cc, cc)
  next_payload-first n [] [] [] b p ps h = cc

  state-room :
      (frame : ServerFrame P) (q : Outbound P)
      → q.receiving ≡ true
      → length q.state < q.capacity
      → state frame q ≡ (true, record q { state = q.state ++ protocol frame ∷ [] })
  unfolding state
  state-room frame q receives room = rw (receives, lt→ltb (length q.state) q.capacity room) refl

  emit_updates-room :
      (us : List (AgentUpdate (ServerMessage P))) (q : Outbound P)
      → q.receiving ≡ true
      → length q.state + length us ≤ q.capacity
      → emit_updates us q ≡ record q { state = q.state ++ map protocol (map update_frame us) }
  unfolding emit_updates emit_update
  emit_updates-room [] q receives room =
      ap (λ ss. record q { state = ss }) (sym (append-nil q.state))
  emit_updates-room (u ∷ us) q receives room =
      let p : OutboundPayload P = protocol (update_frame u) in
      let q' = record q { state = q.state ++ p ∷ [] } in
      let here : length q.state < q.capacity = omega arith in
      let grown = length-append q.state (p ∷ []) in
      let rest : length q'.state + length us ≤ q'.capacity = omega arith in
      rw (state-room (update_frame u) q receives here) (
        emit_updates-room us q' receives rest
        ∙ ap (λ ss. record q { state = ss })
            (append_assoc q.state (p ∷ []) (map protocol (map update_frame us))))

  -- What the start of a subscription puts into the queues of a new connection.
  start-in_order :
      (start : SubscriptionStart (ServerMessage P)) (n : ℕ)
      → length (start_frames start) ≤ n
      → in_order (emit_subscription_start start (new_outbound n))
        ≡ map protocol (start_frames start)
  unfolding emit_subscription_start start_frames control
  start-in_order (SubscriptionStart.snapshot s) n room =
      let here : 0 < (new_outbound {P = P} n).capacity = new_outbound-room P n in
      rw (emit_subscription_start, state-room (snapshot_frame s) (new_outbound n) refl here) refl
  start-in_order (SubscriptionStart.replay updates) n room =
      let wide = new_outbound-capacity P n in
      let same = length-map update_frame updates in
      let here : 0 + length updates ≤ (new_outbound {P = P} n).capacity = omega arith in
      ap (λ q. in_order q) (emit_updates-room updates (new_outbound n) refl here)
  start-in_order (SubscriptionStart.resync_required s) n room =
      let q = (control (replay_gap non_contiguous_cursor s) (new_outbound n)).1 in
      let here : 0 < (new_outbound {P = P} n).capacity = new_outbound-room P n in
      rw (emit_subscription_start, state-room (snapshot_frame s) q refl here) refl

module _ {P : Payloads} (cbor : Cbor (ServerFrame P)) (limit interval_ms : ℕ)
    (to_be_bytes : ℕ → Bytes) where
  -- The messages that the payloads are sent as.
  abbrev pub AreSentAs : List (OutboundPayload P) → List Message → Type 0
  AreSentAs [] [] = Unit
  AreSentAs (p ∷ ps) (m ∷ ms) =
      (message_of cbor limit interval_ms to_be_bytes p ≡ some m) × AreSentAs ps ms
  AreSentAs [] (m ∷ ms) = ⊥
  AreSentAs (p ∷ ps) [] = ⊥

  -- Every message of the rounds gets through.
  abbrev pub AreDelivered : List Round → Type 0
  AreDelivered [] = Unit
  AreDelivered (r ∷ rs) = (r.delivered ≡ true) × AreDelivered rs

  run_writer-in_order :
      (rs : List Round) (q : Outbound P) (ps : List (OutboundPayload P)) (ms : List Message)
      → in_order q ≡ ps
      → AreSentAs ps ms
      → length rs ≡ length ms
      → AreDelivered rs
      → (run_writer cbor limit interval_ms to_be_bytes rs q).0 ≡ ms
  unfolding run_writer take_payload
  run_writer-in_order [] q ps [] e sent rounds delivered = refl
  run_writer-in_order [] q ps (m ∷ ms) e sent rounds delivered = absurd (omega arith)
  run_writer-in_order (r ∷ rs) q ps [] e sent rounds delivered = absurd (omega arith)
  run_writer-in_order (r ∷ rs) q [] (m ∷ ms) e sent rounds delivered = absurd sent
  run_writer-in_order (r ∷ rs) q (p ∷ ps) (m ∷ ms) e (here, sent) rounds (through, delivered) =
      let (q', taken, left) =
        next_payload-first q.capacity q.control q.response q.state q.receiving p ps e in
      let first : next_payload q ≡ some (p, q') = taken in
      rw (run_writer, take_payload, first, here, through)
        (ap (λ x. m ∷ x) (run_writer-in_order rs q' ps ms left sent (omega arith) delivered))

  -- With as many places in the queues as the start of a subscription has frames, these are what
  -- the writer sends, in their order, over as many rounds in which every message gets through: the
  -- gap before the snapshot, though they go by two queues. None of the frames fails to be encoded.
  pub start_written :
      (start : SubscriptionStart (ServerMessage P)) (n : ℕ) (rs : List Round) (ms : List Message)
      → length (start_frames start) ≤ n
      → AreSentAs (map protocol (start_frames start)) ms
      → length rs ≡ length ms
      → AreDelivered rs
      → (run_writer cbor limit interval_ms to_be_bytes rs
          (emit_subscription_start start (new_outbound n))).0
        ≡ ms
  start_written start n rs ms room sent rounds delivered =
      run_writer-in_order rs (emit_subscription_start start (new_outbound n))
        (map protocol (start_frames start)) ms (start-in_order start n room) sent rounds delivered
