-- ===== src/Protocol/State/Idempotent.antt =====
-- A change of state.rs that is applied twice.
use omp_remote.Prelude.{◌≡◌, refl, ◌↔◌, false, Option, none, some, List, [], ◌∷◌, ◌++◌, arith}
use omp_remote.Protocol.Id.{RunId}
use omp_remote.Protocol.State.{
  RunSnapshot, AgentSnapshot, AgentStateChange, run_upserted, run_removed, retain_other_runs,
  clear_active_run, upsert_run, apply_change, would_change,
}

retain-retain :
    (i : RunId) (rs : List RunSnapshot)
    → retain_other_runs i (retain_other_runs i rs) ≡ retain_other_runs i rs
unfolding retain_other_runs
retain-retain i [] = refl
retain-retain i (r ∷ rs) = ground (arith, retain-retain i rs)

retain-snoc :
    (r : RunSnapshot) (rs : List RunSnapshot)
    → retain_other_runs r.run_id (rs ++ r ∷ []) ≡ retain_other_runs r.run_id rs
unfolding retain_other_runs
retain-snoc r [] = ground arith
retain-snoc r (x ∷ rs) = ground (arith, retain-snoc r rs)

clear-clear :
    (i : RunId) (active : Option RunSnapshot)
    → clear_active_run i (clear_active_run i active) ≡ clear_active_run i active
unfolding clear_active_run
clear-clear i none = refl
clear-clear i (some a) = ground arith

upsert-upsert :
    (s : AgentSnapshot) (r : RunSnapshot) → upsert_run (upsert_run s r) r ≡ upsert_run s r
unfolding upsert_run
upsert-upsert s r = ground (
  arith,
  retain-retain r.run_id s.recent_runs,
  retain-snoc r (retain_other_runs r.run_id s.recent_runs),
  clear-clear r.run_id s.active_run,
)

-- Applying a change again leaves the snapshot as the first application made it.
apply_change_idem :
    (s : AgentSnapshot) (c : AgentStateChange)
    → apply_change (apply_change s c) c ≡ apply_change s c
unfolding apply_change
apply_change_idem s (run_upserted run) = upsert-upsert s run
apply_change_idem s (run_removed run_id) =
    ground (arith, retain-retain run_id s.recent_runs, clear-clear run_id s.active_run)
apply_change_idem s _ = refl

-- `would_change` says whether applying the change gives another snapshot.
pub would_change_exact :
    (s : AgentSnapshot) (c : AgentStateChange) → (would_change s c ≡ false) ↔ (apply_change s c ≡ s)
unfolding would_change
would_change_exact s c = (λ h. ground arith, λ h. ground arith)

-- A change that was applied is not reported as a change any more.
would_change-apply_change :
    (s : AgentSnapshot) (c : AgentStateChange) → would_change (apply_change s c) c ≡ false
would_change-apply_change s c = (would_change_exact (apply_change s c) c).1 (apply_change_idem s c)
