-- ===== src/Protocol/State/WellFormed.antt =====
-- The runs of a snapshot: what `apply_change` of state.rs keeps true of them.
use omp_remote.Prelude.{
  ◌≡◌, ◌≢◌, true, false, Option, none, some, List, [], ◌∷◌, ◌++◌, arith, Bool-cases, inl, inr,
}
use omp_remote.Protocol.Id.{RunId}
use omp_remote.Protocol.State.{
  RunSnapshot, AgentSnapshot, AgentStateChange, run_upserted, run_removed, is_terminal,
  retain_other_runs, clear_active_run, upsert_run, apply_change,
}

abbrev pub IsFresh : RunId → List RunSnapshot → Type 0
IsFresh run_id [] = Unit
IsFresh run_id (r ∷ rs) = (r.run_id ≢ run_id) × IsFresh run_id rs

abbrev pub IsDistinct : List RunSnapshot → Type 0
IsDistinct [] = Unit
IsDistinct (r ∷ rs) = IsFresh r.run_id rs × IsDistinct rs

abbrev pub IsEnded : List RunSnapshot → Type 0
IsEnded [] = Unit
IsEnded (r ∷ rs) = (is_terminal r.lifecycle ≡ true) × IsEnded rs

abbrev pub IsActive : Option RunSnapshot → List RunSnapshot → Type 0
IsActive none rs = Unit
IsActive (some a) rs = (is_terminal a.lifecycle ≡ false) × IsFresh a.run_id rs

-- The recent runs have distinct IDs and have ended; the active run has not, and is not among them.
pub record HasRuns (active : Option RunSnapshot) (recent : List RunSnapshot) : Type 0 where
  pub distinct : IsDistinct recent
  pub ended : IsEnded recent
  pub active_ok : IsActive active recent

abbrev pub IsWellFormed : AgentSnapshot → Type 0
IsWellFormed s = HasRuns s.active_run s.recent_runs

pub retain-IsFresh_self : (i : RunId) (rs : List RunSnapshot) → IsFresh i (retain_other_runs i rs)
unfolding retain_other_runs
retain-IsFresh_self i [] = tt
retain-IsFresh_self i (r ∷ rs) = ground (arith, retain-IsFresh_self i rs)

retain-IsFresh :
    (i j : RunId) (rs : List RunSnapshot) → IsFresh j rs → IsFresh j (retain_other_runs i rs)
unfolding retain_other_runs
retain-IsFresh i j [] h = tt
retain-IsFresh i j (r ∷ rs) h = ground (arith, retain-IsFresh i j rs h.1)

retain-IsDistinct :
    (i : RunId) (rs : List RunSnapshot) → IsDistinct rs → IsDistinct (retain_other_runs i rs)
unfolding retain_other_runs
retain-IsDistinct i [] h = tt
retain-IsDistinct i (r ∷ rs) h =
    ground (arith, retain-IsFresh i r.run_id rs h.0, retain-IsDistinct i rs h.1)

retain-IsEnded : (i : RunId) (rs : List RunSnapshot) → IsEnded rs → IsEnded (retain_other_runs i rs)
unfolding retain_other_runs
retain-IsEnded i [] h = tt
retain-IsEnded i (r ∷ rs) h = ground (arith, retain-IsEnded i rs h.1)

IsFresh-snoc :
    (i : RunId) (rs : List RunSnapshot) (r : RunSnapshot)
    → IsFresh i rs
    → r.run_id ≢ i
    → IsFresh i (rs ++ r ∷ [])
IsFresh-snoc i [] r h n = (n, tt)
IsFresh-snoc i (x ∷ rs) r h n = (h.0, IsFresh-snoc i rs r h.1 n)

IsDistinct-snoc :
    (rs : List RunSnapshot) (r : RunSnapshot)
    → IsDistinct rs
    → IsFresh r.run_id rs
    → IsDistinct (rs ++ r ∷ [])
IsDistinct-snoc [] r d f = (tt, tt)
IsDistinct-snoc (x ∷ rs) r d f =
    (IsFresh-snoc x.run_id rs r d.0 (λ e. f.0 (ground arith)), IsDistinct-snoc rs r d.1 f.1)

IsEnded-snoc :
    (rs : List RunSnapshot) (r : RunSnapshot)
    → IsEnded rs
    → is_terminal r.lifecycle ≡ true
    → IsEnded (rs ++ r ∷ [])
IsEnded-snoc [] r h t = (t, tt)
IsEnded-snoc (x ∷ rs) r h t = (h.0, IsEnded-snoc rs r h.1 t)

clear-IsActive :
    (i : RunId) (active : Option RunSnapshot) (rs : List RunSnapshot)
    → IsActive active rs
    → IsActive (clear_active_run i active) (retain_other_runs i rs)
unfolding clear_active_run
clear-IsActive i none rs h = tt
clear-IsActive i (some a) rs h = ground (arith, retain-IsFresh i a.run_id rs h.1)

clear-IsActive_snoc :
    (r : RunSnapshot) (active : Option RunSnapshot) (rs : List RunSnapshot)
    → IsActive active rs
    → IsActive (clear_active_run r.run_id active) (retain_other_runs r.run_id rs ++ r ∷ [])
unfolding clear_active_run
clear-IsActive_snoc r none rs h = tt
clear-IsActive_snoc r (some a) rs h = ground (
  arith,
  λ (n : a.run_id ≢ r.run_id).
      IsFresh-snoc a.run_id (retain_other_runs r.run_id rs) r
        (retain-IsFresh r.run_id a.run_id rs h.1) (λ e. n (ground arith)),
)

module _ (i : RunId) (active : Option RunSnapshot) (rs : List RunSnapshot)
    (h : HasRuns active rs) where
  removed-HasRuns : HasRuns (clear_active_run i active) (retain_other_runs i rs)
  removed-HasRuns = record {
    distinct = retain-IsDistinct i rs h.distinct;
    ended = retain-IsEnded i rs h.ended;
    active_ok = clear-IsActive i active rs h.active_ok;
  }

upsert-IsWellFormed :
    (s : AgentSnapshot) (r : RunSnapshot) → IsWellFormed s → IsWellFormed (upsert_run s r)
unfolding upsert_run
upsert-IsWellFormed s r h = elim (Bool-cases (is_terminal r.lifecycle)) [
  | inl e ↦
      rw (e, upsert_run)
        (record {
          distinct =
              IsDistinct-snoc (retain_other_runs r.run_id s.recent_runs) r
                (retain-IsDistinct r.run_id s.recent_runs h.distinct)
                (retain-IsFresh_self r.run_id s.recent_runs);
          ended =
              IsEnded-snoc (retain_other_runs r.run_id s.recent_runs) r
                (retain-IsEnded r.run_id s.recent_runs h.ended) e;
          active_ok = clear-IsActive_snoc r s.active_run s.recent_runs h.active_ok;
        })
  | inr e ↦
      rw (e, upsert_run)
        (record {
          distinct = retain-IsDistinct r.run_id s.recent_runs h.distinct;
          ended = retain-IsEnded r.run_id s.recent_runs h.ended;
          active_ok = (e, retain-IsFresh_self r.run_id s.recent_runs);
        })
]

-- Every change keeps the recent runs ended and with distinct IDs, and the active run unended and
-- apart from them.
pub apply_change-IsWellFormed :
    (s : AgentSnapshot) (c : AgentStateChange) → IsWellFormed s → IsWellFormed (apply_change s c)
unfolding apply_change
apply_change-IsWellFormed s (run_upserted run) h = upsert-IsWellFormed s run h
apply_change-IsWellFormed s (run_removed run_id) h =
    removed-HasRuns run_id s.active_run s.recent_runs h
apply_change-IsWellFormed s _ h = h
