-- ===== src/Client/Connection/Answers/Requests.antt =====
-- A request of the client in crates/omp-control-client/src/client.rs, from its command on.
use omp_remote.Prelude.{
  ℕ, suc, ◌+◌, ◌<◌, ◌^◌, ◌≡◌, refl, Bool, true, false, Option, none, some, List, [], ◌∷◌, arith,
  inl, inr, All, length, ◌∙◌, subst, sym, ap,
}
use mathlib.Core.Bool.{true≢false}
use omp_remote.Prelude.NumMap.{get-insert}
use omp_remote.Protocol.Id.{OperationId}
use omp_remote.Protocol.Frame.Types.{Payloads}
use omp_remote.Client.Connection.Types.{Link, ClientConfig, ClientCommand, PendingPayload, Sender}
use omp_remote.Client.Connection.Pending.{Runner, insert_pending, send_pending}
use omp_remote.Client.Connection.Frames.{
  handle_connected_command, handle_offline_command, continued,
}
use omp_remote.Client.Connection.Session.{Input, Stage, Session, step_serving, step, run}
use omp_remote.Client.Connection.Answers.Table.{waits, waits-insert-own}
use omp_remote.Client.Connection.Answers.Tracked.{answers, Tracked}
use omp_remote.Client.Connection.Answers.Steps.{Follows, sent_pending}
use omp_remote.Client.Connection.Answers.Commands.{connected-Empties, continued-Here}
use omp_remote.Client.Connection.Answers.Sessions.{Closed, Good, LeavesInput, commanding}
use omp_remote.Client.Connection.Answers.Run.{stepped}

abbrev pub is_finished : {P : Payloads} {link : Link P} → Stage link → Bool
is_finished (Stage.finished result) = true
is_finished _ = false

module _ {P : Payloads} (link : Link P) (config : ClientConfig) (payload : PendingPayload P)
    (operation_id : Option OperationId) (k : Sender) where
  -- A channel that neither waits nor has been answered.
  pub record IsUnused (r : Runner link) : Type 0 where
    pub no_wait : waits k r.pending ≡ 0
    pub no_answer : answers k r.effects ≡ 0

  abbrev pub asked : Input link
  asked = Input.command (some (ClientCommand.request payload operation_id k))

  first_inserted :
      (r : Runner link)
      → suc r.next_pending < 2 ^ 64
      → IsUnused r
      → Follows link r.next_pending payload operation_id k
          (suc r.next_pending)
          (insert_pending link payload operation_id k r).1
  unfolding insert_pending
  first_inserted r b h = (
    inl (record {
      sent = none;
      found = get-insert r.next_pending r.next_pending _ r.pending ∙ ground arith;
      once = waits-insert-own k r.next_pending _ r.pending refl h.no_wait;
      unanswered = h.no_answer;
    }),
    (omega (arith, b), omega (arith, b)),
  )

  first_stepped :
      (s : Session link)
      → suc s.runner.next_pending < 2 ^ 64
      → is_finished s.stage ≡ false
      → IsUnused s.runner
      → Good link config s.runner.next_pending payload operation_id k
          (suc s.runner.next_pending)
          (step link config asked s)
  unfolding step handle_offline_command handle_connected_command
  first_stepped s b r h = go s.stage refl
    where
      first :
          Follows link s.runner.next_pending payload operation_id k
            (suc s.runner.next_pending)
            (insert_pending link payload operation_id k s.runner).1
      first = first_inserted s.runner b h

      served :
          (max : ℕ) (socket : link.Socket)
          → Good link config s.runner.next_pending payload operation_id k
              (suc s.runner.next_pending)
              (step_serving link config max socket asked s)
      served max socket =
          let r' = insert_pending link payload operation_id k s.runner in
          commanding link config s.runner.next_pending payload operation_id k
            (suc s.runner.next_pending) max s.reconnect_delay
            (continued link (send_pending link max r'.0 r'.1 socket))
            (continued-Here link s.runner.next_pending payload operation_id k
              (suc s.runner.next_pending) (send_pending link max r'.0 r'.1 socket)
              (sent_pending link s.runner.next_pending payload operation_id k
                (suc s.runner.next_pending) max r'.0 r'.1 socket first))
            (connected-Empties link s.runner.next_pending payload operation_id k max
              (some (ClientCommand.request payload operation_id k)) s.runner socket)

      go :
          (stage : Stage link)
          → s.stage ≡ stage
          → Good link config s.runner.next_pending payload operation_id k
              (suc s.runner.next_pending)
              (step link config asked s)
      go (Stage.opening a) e = rw (e, step) (first, rw (e) tt)
      go (Stage.greeting a socket) e = rw (e, step) (first, rw (e) tt)
      go (Stage.sleeping d later) e = rw (e, step) (first, rw (e) tt)
      go (Stage.finished result) e = absurd (true≢false (rw (e) at r))
      go (Stage.serving max socket) e = rw (e, step) (served max socket)

  inputs_stepped :
      (key n m : ℕ) (inputs : List (Input link)) (s : Session link)
      → n + length inputs ≡ m
      → m < 2 ^ 64
      → All (LeavesInput link config key payload operation_id k) inputs
      → Good link config key payload operation_id k n s
      → Good link config key payload operation_id k m (run link config inputs s)
  unfolding run
  inputs_stepped key n m [] s e b l h =
      let same : n ≡ m = omega (arith, e) in
      subst (λ x. Good link config key payload operation_id k x s) same h
  inputs_stepped key n m (i ∷ inputs) s e b l h =
      inputs_stepped key (suc n) m inputs (step link config i s) (omega (arith, e)) b l.1
        (stepped link config key payload operation_id k n (omega (arith, e, b)) s h i l.0)

  -- The shutdown, or the end of the commands.
  abbrev pub stop : Option Sender → Input link
  stop none = Input.command none
  stop (some tx) = Input.command (some (ClientCommand.shutdown tx))

  stop_finishes :
      (tx : Option Sender) (s : Session link)
      → is_finished (step link config (stop tx) s).stage ≡ true
  unfolding step handle_offline_command handle_connected_command
  stop_finishes tx s = go tx s.stage refl
    where
      go :
          (tx : Option Sender) (stage : Stage link)
          → s.stage ≡ stage
          → is_finished (step link config (stop tx) s).stage ≡ true
      go none (Stage.opening a) e = rw (e, step) refl
      go none (Stage.greeting a socket) e = rw (e, step) refl
      go none (Stage.serving max socket) e = rw (e, step) refl
      go none (Stage.sleeping d later) e = rw (e, step) refl
      go none (Stage.finished result) e = rw (e, step) (ap is_finished e)
      go (some x) (Stage.opening a) e = rw (e, step) refl
      go (some x) (Stage.greeting a socket) e = rw (e, step) refl
      go (some x) (Stage.serving max socket) e = rw (e, step) refl
      go (some x) (Stage.sleeping d later) e = rw (e, step) refl
      go (some x) (Stage.finished result) e = rw (e, step) (ap is_finished e)

  answered_if_empty :
      (key n : ℕ) (r : Runner link)
      → Follows link key payload operation_id k n r
      → r.pending ≡ []
      → answers k r.effects ≡ 1
  answered_if_empty key n r (inl h, l) e =
      let none_waits : waits k r.pending ≡ 0 = rw (e) refl in
      absurd (omega (arith, none_waits, h.once))
  answered_if_empty key n r (inr h, l) e = h.answered

  finished_answered :
      (key n : ℕ) (s : Session link)
      → is_finished s.stage ≡ true
      → Good link config key payload operation_id k n s
      → (s.runner.pending ≡ []) × (answers k s.runner.effects ≡ 1)
  finished_answered key n s d h = go s.stage refl
    where
      go :
          (stage : Stage link)
          → s.stage ≡ stage
          → (s.runner.pending ≡ []) × (answers k s.runner.effects ≡ 1)
      go (Stage.finished result) e =
          let empty : s.runner.pending ≡ [] = subst (λ x. Closed x s.runner) e h.1 in
          (empty, answered_if_empty key n s.runner h.0 empty)
      go (Stage.opening a) e = absurd (true≢false (sym d ∙ ap is_finished e))
      go (Stage.greeting a socket) e = absurd (true≢false (sym d ∙ ap is_finished e))
      go (Stage.serving max socket) e = absurd (true≢false (sym d ∙ ap is_finished e))
      go (Stage.sleeping x later) e = absurd (true≢false (sym d ∙ ap is_finished e))

  stop_leaves :
      (key : ℕ) (tx : Option Sender) → LeavesInput link config key payload operation_id k (stop tx)
  stop_leaves key none = tt
  stop_leaves key (some tx) = tt

  module _ (s : Session link) (inputs : List (Input link))
      (in_range : suc (suc s.runner.next_pending) + length inputs < 2 ^ 64)
      (running : is_finished s.stage ≡ false) (unused : IsUnused s.runner)
      (leaves : All
        (LeavesInput link config s.runner.next_pending payload operation_id k)
        inputs) where
    later-Good :
        Good link config s.runner.next_pending payload operation_id k
          (suc s.runner.next_pending + length inputs)
          (run link config (asked ∷ inputs) s)
    unfolding run
    later-Good =
        inputs_stepped s.runner.next_pending (suc s.runner.next_pending) _ inputs
          (step link config asked s) refl (omega (arith, in_range)) leaves
          (first_stepped s (omega (arith, in_range)) running unused)

    -- After a request was asked for on an unused channel, of a task that has not stopped, and
    -- after any inputs whose commands do not use the channel, while the keys are within u64:
    -- either the request is pending, once, under its key, with its payload and its operation ID as
    -- they were, and unanswered, or it is not pending and has been answered once.
    pub request_tracked :
        Tracked s.runner.next_pending payload operation_id k
          (run link config (asked ∷ inputs) s).runner.pending
          (run link config (asked ∷ inputs) s).runner.effects
    request_tracked = later-Good.0.0

    -- A request that was asked for on an unused channel, of a task that has not stopped, followed
    -- by any inputs whose commands do not use the channel, while the keys are within u64, has been
    -- answered once when the task is then told to shut down, or all its handles are gone; the task
    -- has stopped then, and nothing is pending.
    pub shutdown_answers :
        (tx : Option Sender)
        → (is_finished (step link config (stop tx) (run link config (asked ∷ inputs) s)).stage
            ≡ true)
          × ((step link config (stop tx) (run link config (asked ∷ inputs) s)).runner.pending ≡ [])
          × (answers k
                (step link config (stop tx) (run link config (asked ∷ inputs) s)).runner.effects
              ≡ 1)
    shutdown_answers tx =
        let last = run link config (asked ∷ inputs) s in
        let key = s.runner.next_pending in
        let n = suc key + length inputs in
        let done = stop_finishes tx last in
        let good =
          stepped link config key payload operation_id k n (omega (arith, in_range)) last later-Good
            (stop tx) (stop_leaves key tx) in
        let end = finished_answered key (suc n) (step link config (stop tx) last) done good in
        (done, end.0, end.1)
