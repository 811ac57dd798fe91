-- ===== src/Prelude/BTreeMap.antt =====
-- `std::collections::BTreeMap` keyed by strings: an association list in the order of the keys.
-- An insertion puts a new entry before the first greater key.
use Prim.Native.Nat.{Ordering}
use Prim.Native.String.{String, compare}
use mathlib.Core.Path.{◌≡◌, ◌∙◌, refl}
use mathlib.Core.Logic.{ite}
use mathlib.Core.Bool.{Bool, true, false}
use mathlib.Core.Option.{Option, none, some}
use mathlib.Core.List.{List, [], ◌∷◌, map}
use native.Mathlib.Omega.{arith}
use omp_remote.Prelude.Tests.{if◌then◌else◌, is_some}
use omp_remote.Prelude.Text.{String_discrete}

abbrev pub BTreeMap : Type 0 → Type 0
BTreeMap V = List (String × V)

abbrev pub string_lt : String → String → Bool
string_lt a b = elim (compare a b) [ Ordering.lt ↦ true | _ ↦ false ]

module _ {V : Type 0} where
  unfoldable pub get : String → BTreeMap V → Option V
  get k [] = none
  get k ((j, v) ∷ m) = ite (String_discrete k j) (some v) (get k m)

  unfoldable pub insert : String → V → BTreeMap V → BTreeMap V
  insert k v [] = (k, v) ∷ []
  insert k v ((j, w) ∷ m) =
      ite (String_discrete k j) ((k, v) ∷ m)
        (if string_lt k j then (k, v) ∷ (j, w) ∷ m else (j, w) ∷ insert k v m)

  unfoldable pub remove : String → BTreeMap V → BTreeMap V
  remove k [] = []
  remove k ((j, w) ∷ m) = ite (String_discrete k j) (remove k m) ((j, w) ∷ remove k m)

  abbrev pub contains_key : String → BTreeMap V → Bool
  contains_key k m = is_some (get k m)

  abbrev pub keys : BTreeMap V → List String
  keys = map (λ e. e.0)

  pub get-insert :
      (k j : String) (v : V) (m : BTreeMap V)
      → get j (insert k v m) ≡ ite (String_discrete j k) (some v) (get j m)
  unfolding get insert
  get-insert k j v [] = refl
  get-insert k j v ((i, w) ∷ m) = ground (arith, get-insert k j v m)

  pub get-insert_same : (k : String) (v : V) (m : BTreeMap V) → get k (insert k v m) ≡ some v
  get-insert_same k v m = get-insert k k v m ∙ ground arith

  pub get-remove :
      (k j : String) (m : BTreeMap V)
      → get j (remove k m) ≡ ite (String_discrete j k) none (get j m)
  unfolding get remove
  get-remove k j [] = ground arith
  get-remove k j ((i, w) ∷ m) = ground (arith, get-remove k j m)
