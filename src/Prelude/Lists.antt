-- ===== src/Prelude/Lists.antt =====
-- Lists measured by native numbers, and predicates on all entries.
use Prim.Native.Nat.{ℕ, zero, suc, ◌+◌, ◌≤◌}
use mathlib.Core.Path.{◌≡◌, refl, sym, ap, ap₂}
use mathlib.Core.List.{List, [], ◌∷◌, ◌++◌, head-eq_of_cons-eq, tail-eq_of_cons-eq}
use native.Mathlib.Omega.{arith}

module _ {ℓ} {A : Type ℓ} where
  abbrev pub length : List A → ℕ
  length [] = 0
  length (x ∷ xs) = suc (length xs)

  abbrev pub drop : ℕ → List A → List A
  drop zero xs = xs
  drop (suc n) [] = []
  drop (suc n) (x ∷ xs) = drop n xs

  -- `VecDeque::pop_front`, the popped entry dropped.
  abbrev pub pop_front : List A → List A
  pop_front [] = []
  pop_front (x ∷ xs) = xs

  pub length-append : (xs ys : List A) → length (xs ++ ys) ≡ length xs + length ys
  length-append [] ys = omega arith
  length-append (x ∷ xs) ys = omega (arith, length-append xs ys)

  pub drop-append : (xs ys : List A) → drop (length xs) (xs ++ ys) ≡ ys
  drop-append [] ys = refl
  drop-append (x ∷ xs) ys = drop-append xs ys

abbrev pub All {ℓ κ} : {A : Type ℓ} → (A → Type κ) → List A → Type κ
All P [] = Unit
All P (x ∷ xs) = P x × All P xs

pub All-append {ℓ κ} :
    {A : Type ℓ} (P : A → Type κ) (xs ys : List A) → All P xs → All P ys → All P (xs ++ ys)
All-append P [] ys hx hy = hy
All-append P (x ∷ xs) ys hx hy = (hx.0, All-append P xs ys hx.1 hy)

-- Where one list is split in two ways, the longer end part has the shorter one at its end.
pub append_split {ℓ} :
    {A : Type ℓ} (xs ys zs ws : List A)
    → xs ++ ys ≡ zs ++ ws
    → length ys ≤ length ws
    → (m : List A) × (ws ≡ m ++ ys) × (xs ≡ zs ++ m)
append_split xs ys [] ws e h = (xs, sym e, refl)
append_split [] ys (z ∷ zs) ws e h = absurd (omega (arith, ap length e, length-append zs ws))
append_split (x ∷ xs) ys (z ∷ zs) ws e h =
    let (m, p, q) = append_split xs ys zs ws (tail-eq_of_cons-eq e) h in
    (m, p, ap₂ ◌∷◌ (head-eq_of_cons-eq e) q)

pub nil_of_length {ℓ} : {A : Type ℓ} (xs : List A) → length xs ≡ 0 → xs ≡ []
nil_of_length [] h = refl
nil_of_length (x ∷ xs) h = absurd (omega arith)
