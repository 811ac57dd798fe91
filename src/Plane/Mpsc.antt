-- ===== src/Plane/Mpsc.antt =====
-- tokio's bounded `mpsc` channel, as crates/omp-control-plane/src/actor.rs uses it: what its
-- documentation promises of `channel`, `try_send` and `recv`, and a queue that keeps the promise.
use omp_remote.Prelude.{
  ℕ, ◌≤◌, ◌<◌, ◌≡◌, refl, Bool, true, false, Option, none, some, List, [], ◌∷◌, ◌++◌, arith, length,
  ltb, if◌then◌else◌,
}

pub data TrySend : Type 0 where
  sent full closed : TrySend

-- A channel is shared by its sender and its receiver, so the one value stands for both ends.
pub record Mpsc (U : Type 0) : Type 1 where
  pub Channel : Type 0
  pub channel : ℕ → Channel
  pub try_send : U → Channel → TrySend × Channel
  pub recv : Channel → Option (U × Channel)
  -- what was sent and not yet received, oldest first
  pub contents : Channel → List U
  pub capacity : Channel → ℕ
  -- whether the receiver is there
  pub is_open : Channel → Bool

pub record MpscLaws {U : Type 0} (m : Mpsc U) : Type 0 where
  pub channel-contents : (n : ℕ) → m.contents (m.channel n) ≡ []
  pub channel-capacity : (n : ℕ) → m.capacity (m.channel n) ≡ n
  pub channel_open : (n : ℕ) → m.is_open (m.channel n) ≡ true
  pub send_closed : (u : U) (c : m.Channel) → m.is_open c ≡ false → (m.try_send u c).0 ≡ closed
  pub send_full :
      (u : U) (c : m.Channel)
      → m.is_open c ≡ true
      → m.capacity c ≤ length (m.contents c)
      → (m.try_send u c).0 ≡ full
  pub send_room :
      (u : U) (c : m.Channel)
      → m.is_open c ≡ true
      → length (m.contents c) < m.capacity c
      → (m.try_send u c).0 ≡ sent
  pub sent-contents :
      (u : U) (c : m.Channel)
      → (m.try_send u c).0 ≡ sent
      → m.contents (m.try_send u c).1 ≡ m.contents c ++ u ∷ []
  pub send-capacity : (u : U) (c : m.Channel) → m.capacity (m.try_send u c).1 ≡ m.capacity c
  pub recv_empty : (c : m.Channel) → m.contents c ≡ [] → m.recv c ≡ none
  pub recv_next :
      (c : m.Channel) (u : U) (us : List U)
      → m.contents c ≡ u ∷ us
      → (d : m.Channel) × (m.recv c ≡ some (u, d)) × (m.contents d ≡ us)

-- A queue in memory.
pub record Queue (U : Type 0) : Type 0 where
  pub items : List U
  pub room : ℕ
  pub receiving : Bool

module _ {U : Type 0} where
  queue_send : U → Queue U → TrySend × Queue U
  queue_send u q =
      if q.receiving
      then (if ltb (length q.items) q.room
          then (sent, record q { items = q.items ++ u ∷ [] })
          else (full, q))
      else (closed, q)

  queue_pop : List U → Queue U → Option (U × Queue U)
  queue_pop [] q = none
  queue_pop (u ∷ us) q = some (u, record q { items = us })

  abbrev pub queue : Mpsc U
  unfolding queue_send queue_pop
  queue = record {
    Channel = Queue U;
    channel = λ n. record { items = []; room = n; receiving = true };
    try_send = queue_send;
    recv = λ q. queue_pop q.items q;
    contents = λ q. q.items;
    capacity = λ q. q.room;
    is_open = λ q. q.receiving;
  }

  queue_send_closed : (u : U) (q : Queue U) → q.receiving ≡ false → (queue_send u q).0 ≡ closed
  unfolding queue_send
  queue_send_closed u q h = ground arith

  queue_send_full :
      (u : U) (q : Queue U)
      → q.receiving ≡ true
      → q.room ≤ length q.items
      → (queue_send u q).0 ≡ full
  unfolding queue_send
  queue_send_full u q h f = ground arith

  queue_send_room :
      (u : U) (q : Queue U)
      → q.receiving ≡ true
      → length q.items < q.room
      → (queue_send u q).0 ≡ sent
  unfolding queue_send
  queue_send_room u q h f = ground arith

  queue_sent-items :
      (u : U) (q : Queue U)
      → (queue_send u q).0 ≡ sent
      → (queue_send u q).1.items ≡ q.items ++ u ∷ []
  unfolding queue_send
  queue_sent-items u q h = ground arith

  queue_send-room : (u : U) (q : Queue U) → (queue_send u q).1.room ≡ q.room
  unfolding queue_send
  queue_send-room u q = ground arith

  queue_pop_empty : (q : Queue U) → q.items ≡ [] → queue_pop q.items q ≡ none
  unfolding queue_pop
  queue_pop_empty q h = ground arith

  queue_pop_next :
      (q : Queue U) (u : U) (us : List U)
      → q.items ≡ u ∷ us
      → (d : Queue U) × (queue_pop q.items q ≡ some (u, d)) × (d.items ≡ us)
  unfolding queue_pop
  queue_pop_next q u us h = (record q { items = us }, ground arith, refl)

  pub queue_laws : MpscLaws queue
  unfolding queue_send queue_pop
  queue_laws = record {
    channel-contents = λ n. refl;
    channel-capacity = λ n. refl;
    channel_open = λ n. refl;
    send_closed = queue_send_closed;
    send_full = queue_send_full;
    send_room = queue_send_room;
    sent-contents = queue_sent-items;
    send-capacity = queue_send-room;
    recv_empty = queue_pop_empty;
    recv_next = queue_pop_next;
  }
