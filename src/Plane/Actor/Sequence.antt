-- ===== src/Plane/Actor/Sequence.antt =====
-- Logs of updates whose event sequences follow one another.
use mathlib.Core.List.{filter-append}
use omp_remote.Prelude.{
  ℕ, suc, ◌+◌, ◌≤◌, ◌≡◌, refl, List, [], ◌∷◌, ◌++◌, arith, dec_lt, length, ok, >>=-eq-ok, ◌∙◌,
}
use omp_remote.Protocol.State.{
  AgentSnapshot, AgentUpdate, update_sequence, apply_update, apply_updates,
}
use omp_remote.Protocol.State.Advance.{apply_update-Accepts}
use omp_remote.Plane.Actor.Log.{later_than}

module _ {M : Type 0} where
  abbrev pub Contiguous : ℕ → List (AgentUpdate M) → Type 0
  Contiguous n [] = Unit
  Contiguous n (u ∷ us) = (update_sequence u ≡ suc n) × Contiguous (suc n) us

  pub Contiguous-snoc :
      (n : ℕ) (us : List (AgentUpdate M)) (u : AgentUpdate M)
      → Contiguous n us
      → update_sequence u ≡ suc (n + length us)
      → Contiguous n (us ++ u ∷ [])
  Contiguous-snoc n [] u c e = (omega arith, tt)
  Contiguous-snoc n (x ∷ us) u c e = (c.0, Contiguous-snoc (suc n) us u c.1 (omega arith))

  pub Contiguous-right :
      (n : ℕ) (us vs : List (AgentUpdate M))
      → Contiguous n (us ++ vs)
      → Contiguous (n + length us) vs
  Contiguous-right n [] vs c = subst_start (omega arith) c
    where
      subst_start : {m : ℕ} → n ≡ m → Contiguous n vs → Contiguous m vs
      subst_start e c = rw e at c
  Contiguous-right n (u ∷ us) vs c = subst_start (omega arith) (Contiguous-right (suc n) us vs c.1)
    where
      subst_start :
          {m : ℕ} → suc n + length us ≡ m → Contiguous (suc n + length us) vs → Contiguous m vs
      subst_start e c = rw e at c

  pub Contiguous-left :
      (n : ℕ) (us vs : List (AgentUpdate M)) → Contiguous n (us ++ vs) → Contiguous n us
  Contiguous-left n [] vs c = tt
  Contiguous-left n (u ∷ us) vs c = (c.0, Contiguous-left (suc n) us vs c.1)

  -- A contiguous log moves the sequence by its length.
  pub sequence-replayed :
      (s t : AgentSnapshot) (us : List (AgentUpdate M))
      → Contiguous s.event_sequence us
      → apply_updates s us ≡ ok t
      → t.event_sequence ≡ s.event_sequence + length us
  sequence-replayed s t [] c h = ground arith
  sequence-replayed s t (u ∷ us) c h =
      let (a, e, r) = >>=-eq-ok (apply_update s u) (λ a. apply_updates a us) h in
      let q = (apply_update-Accepts s a u e).sequence ∙ c.0 in
      omega (arith, q, sequence-replayed a t us (rw (← q) at c.1) r)

  -- Of a contiguous log that begins at or after the cursor, all is later.
  pub later_than-all :
      (q n : ℕ) (us : List (AgentUpdate M)) → Contiguous n us → q ≤ n → later_than q us ≡ us
  later_than-all q n [] c h = refl
  later_than-all q n (u ∷ us) c h = ground (arith, later_than-all q (suc n) us c.1)

  -- Of one that ends at the cursor or before, nothing is.
  pub later_than-none :
      (q n : ℕ) (us : List (AgentUpdate M))
      → Contiguous n us
      → n + length us ≤ q
      → later_than q us ≡ []
  later_than-none q n [] c h = refl
  later_than-none q n (u ∷ us) c h = ground (arith, later_than-none q (suc n) us c.1)

  pub later_than-append :
      (q : ℕ) (us vs : List (AgentUpdate M))
      → later_than q (us ++ vs) ≡ later_than q us ++ later_than q vs
  later_than-append q us vs = filter-append (λ u. dec_lt q (update_sequence u)) us vs
