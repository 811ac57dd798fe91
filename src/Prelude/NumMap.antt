-- ===== src/Prelude/NumMap.antt =====
-- `std::collections::BTreeMap` keyed by u64, as an association list in the order of the keys.
use Prim.Native.Nat.{ℕ}
use mathlib.Core.Path.{◌≡◌, refl}
use mathlib.Core.Option.{Option, none, some}
use mathlib.Core.List.{List, [], ◌∷◌}
use native.Mathlib.Omega.{arith}
use omp_remote.Prelude.Tests.{if◌then◌else◌, ltb, ◌==◌}

abbrev pub NumMap : Type 0 → Type 0
NumMap V = List (ℕ × V)

module _ {V : Type 0} where
  unfoldable pub get : ℕ → NumMap V → Option V
  get k [] = none
  get k ((j, v) ∷ m) = if k == j then some v else get k m

  unfoldable pub insert : ℕ → V → NumMap V → NumMap V
  insert k v [] = (k, v) ∷ []
  insert k v ((j, w) ∷ m) =
      let later = insert k v m in
      if k == j then (k, v) ∷ m else if ltb k j then (k, v) ∷ (j, w) ∷ m else (j, w) ∷ later

  unfoldable pub remove : ℕ → NumMap V → NumMap V
  remove k [] = []
  remove k ((j, w) ∷ m) = let later = remove k m in if k == j then later else (j, w) ∷ later

  -- `get_mut`, and the function on the value that it gives.
  unfoldable pub modify : (V → V) → ℕ → NumMap V → NumMap V
  modify f k [] = []
  modify f k ((j, v) ∷ m) =
      let later = modify f k m in if k == j then (j, f v) ∷ m else (j, v) ∷ later

  abbrev pub keys : NumMap V → List ℕ
  keys [] = []
  keys ((j, v) ∷ m) = j ∷ keys m

  -- Applies the function to every value.
  abbrev pub update : (V → V) → NumMap V → NumMap V
  update f [] = []
  update f ((j, v) ∷ m) = (j, f v) ∷ update f m

  pub get-insert :
      (k j : ℕ) (v : V) (m : NumMap V) → get j (insert k v m) ≡ (if j == k then some v else get j m)
  unfolding get insert
  get-insert k j v [] = refl
  get-insert k j v ((i, w) ∷ m) = ground (arith, get-insert k j v m)

  pub get-remove :
      (k j : ℕ) (m : NumMap V) → get j (remove k m) ≡ (if j == k then none else get j m)
  unfolding get remove
  get-remove k j [] = ground arith
  get-remove k j ((i, w) ∷ m) = ground (arith, get-remove k j m)

  pub get-update :
      (f : V → V) (j : ℕ) (m : NumMap V)
      → get j (update f m) ≡ (elim (get j m) [ none ↦ none | some v ↦ some (f v) ])
  unfolding get
  get-update f j [] = refl
  get-update f j ((i, w) ∷ m) = ground (arith, get-update f j m)

  pub get-modify :
      (f : V → V) (k j : ℕ) (m : NumMap V)
      → get j (modify f k m)
        ≡ (if j == k then (elim (get j m) [ none ↦ none | some v ↦ some (f v) ]) else get j m)
  unfolding get modify
  get-modify f k j [] = ground arith
  get-modify f k j ((i, w) ∷ m) = ground (arith, get-modify f k j m)
