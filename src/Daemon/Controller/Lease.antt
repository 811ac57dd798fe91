-- ===== src/Daemon/Controller/Lease.antt =====
-- Who may answer an agent's interaction through crates/ompd/src/controller.rs.
use omp_remote.Prelude.{ℕ, ◌≡◌, ◌<◌, refl, some, ok, err, true, false, arith, inl, inr, Bool-cases}
use omp_remote.Protocol.Id.{AgentId, LeaseHolderId}
use omp_remote.Protocol.State.{AgentSnapshot, InteractionState, InteractionLease, unclaimed, leased}
use omp_remote.Protocol.Frame.Types.{Payloads}
use omp_remote.Plane.Registry
use omp_remote.Plane.Registry.{AgentHandle}
use omp_remote.Daemon.Store.Types.{Outside}
use omp_remote.Daemon.Controller.Action.{◌>>=◌}
use omp_remote.Daemon.Controller.Types.{Tasks, interaction_lease_required}
use omp_remote.Daemon.Controller.Records.{holds_lease}
use omp_remote.Daemon.Controller.Calls.{Shared, agent, unix_time_ms}
use omp_remote.Daemon.Controller.Execute.{snapshot_of, send_ui_response}

-- The interaction is leased to the holder until after the time.
abbrev pub IsLeasedTo : InteractionState → LeaseHolderId → ℕ → Type 0
IsLeasedTo i holder now_ms =
    (lease : InteractionLease) × (i ≡ leased lease)
    × (lease.holder ≡ holder)
    × (now_ms < lease.expires_at_ms)

holds_lease-IsLeasedTo :
    (i : InteractionState) (holder : LeaseHolderId) (now_ms : ℕ)
    → holds_lease i holder now_ms ≡ true
    → IsLeasedTo i holder now_ms
unfolding holds_lease
holds_lease-IsLeasedTo unclaimed holder now_ms h = cc
holds_lease-IsLeasedTo (leased lease) holder now_ms h = (lease, refl, ground arith, ground arith)

not_held :
    (i : InteractionState) (holder : LeaseHolderId) (now_ms : ℕ)
    → ¬ IsLeasedTo i holder now_ms
    → holds_lease i holder now_ms ≡ false
not_held i holder now_ms n = elim (Bool-cases (holds_lease i holder now_ms)) [
  | inl h ↦ absurd (n (holds_lease-IsLeasedTo i holder now_ms h))
  | inr h ↦ h
]

module _ {P : Payloads} {o : Outside P} (d : Tasks o) where
  -- Unless the agent's interaction is leased to the holder when its snapshot is read, and the
  -- lease has not run out by then, a response is refused, and nothing is done after the reading:
  -- the runtime is sent nothing.
  pub ui_response_refused :
      (agent_id : AgentId) (holder : LeaseHolderId) (response : P.UiResponse) (w w1 : Shared d)
      (h : AgentHandle) (s : AgentSnapshot)
      → Registry.get d.mpsc agent_id w.registry ≡ some h
      → snapshot_of d h w ≡ (ok s, w1)
      → ¬ IsLeasedTo s.interaction holder (d.system.unix_time_ms w1.system)
      → send_ui_response d agent_id holder response w ≡ (err interaction_lease_required, w1)
  unfolding send_ui_response ◌>>=◌ agent unix_time_ms
  ui_response_refused agent_id holder response w w1 h s found read free =
      rw (found, read, not_held s.interaction holder (d.system.unix_time_ms w1.system) free) refl
