-- ===== src/Runtime/Answers/Pending.antt =====
-- How often a channel is among the pending requests of crates/omp-runtime/src/runtime.rs.
use omp_remote.Prelude.{ℕ, suc, ◌≡◌, ◌≢◌, refl, ◌==◌, String, some, [], ◌∷◌, if◌then◌else◌, arith}
use omp_remote.Prelude.BTreeMap.{BTreeMap, get, insert, remove}
use omp_remote.Runtime.Types.{Sender}

abbrev pub waits : Sender → BTreeMap Sender → ℕ
waits k [] = 0
waits k ((i, tx) ∷ m) = if tx == k then suc (waits k m) else waits k m

pub waits-insert-own :
    (k : Sender) (r : String) (m : BTreeMap Sender) → waits k m ≡ 0 → waits k (insert r k m) ≡ 1
unfolding insert
waits-insert-own k r [] h = ground arith
waits-insert-own k r ((i, tx) ∷ m) h = ground (arith, waits-insert-own k r m)

pub waits-insert-none :
    (k : Sender) (r : String) (tx : Sender) (m : BTreeMap Sender)
    → tx ≢ k
    → waits k m ≡ 0
    → waits k (insert r tx m) ≡ 0
unfolding insert
waits-insert-none k r tx [] d h = ground arith
waits-insert-none k r tx ((i, ty) ∷ m) d h = ground (arith, waits-insert-none k r tx m d)

pub waits-remove-none :
    (k : Sender) (i : String) (m : BTreeMap Sender) → waits k m ≡ 0 → waits k (remove i m) ≡ 0
unfolding remove
waits-remove-none k i [] h = refl
waits-remove-none k i ((j, tx) ∷ m) h = ground (arith, waits-remove-none k i m)

-- A channel that does not wait is under no ID.
pub waits-get :
    (k : Sender) (i : String) (tx : Sender) (m : BTreeMap Sender)
    → waits k m ≡ 0
    → get i m ≡ some tx
    → tx ≢ k
unfolding get
waits-get k i tx [] h g = cc
waits-get k i tx ((j, ty) ∷ m) h g = ground (arith, waits-get k i tx m)

-- A channel that waits once is under one ID only.
pub sole :
    (k : Sender) (r i : String) (m : BTreeMap Sender)
    → waits k m ≡ 1
    → get r m ≡ some k
    → get i m ≡ some k
    → i ≡ r
unfolding get
sole k r i [] w g h = cc
sole k r i ((j, tx) ∷ m) w g h = ground (arith, sole k r i m, waits-get k r k m, waits-get k i k m)

pub waits-insert-other :
    (k : Sender) (r : String) (i : String) (tx : Sender) (m : BTreeMap Sender)
    → i ≢ r
    → tx ≢ k
    → get r m ≡ some k
    → waits k m ≡ 1
    → waits k (insert i tx m) ≡ 1
unfolding get insert
waits-insert-other k r i tx [] n d g w = cc
waits-insert-other k r i tx ((j, ty) ∷ m) n d g w =
    ground
      (arith, waits-insert-other k r i tx m n d, waits-insert-none k i tx m d, waits-get k r k m)

pub waits-remove-own :
    (k : Sender) (r : String) (m : BTreeMap Sender)
    → get r m ≡ some k
    → waits k m ≡ 1
    → waits k (remove r m) ≡ 0
unfolding get remove
waits-remove-own k r [] g w = cc
waits-remove-own k r ((j, tx) ∷ m) g w =
    ground (arith, waits-remove-own k r m, waits-remove-none k r m, waits-get k r k m)

pub waits-remove-other :
    (k : Sender) (r i : String) (m : BTreeMap Sender)
    → i ≢ r
    → get r m ≡ some k
    → waits k m ≡ 1
    → waits k (remove i m) ≡ 1
unfolding get remove
waits-remove-other k r i [] n g w = cc
waits-remove-other k r i ((j, tx) ∷ m) n g w =
    ground (arith, waits-remove-other k r i m n, waits-remove-none k i m, waits-get k r k m)
