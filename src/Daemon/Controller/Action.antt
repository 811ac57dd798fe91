-- ===== src/Daemon/Controller/Action.antt =====
-- An async method of crates/ompd/src/controller.rs that may fail: what was done before the error stays
-- done, so that the state comes back beside the error too.
use omp_remote.Prelude.{Bool, true, false, Result, ok, err}

abbrev pub Action : Type 0 → Type 0 → Type 0 → Type 0
Action S E A = S → Result E A × S

module _ {S E A : Type 0} where
  unfoldable pub pure : A → Action S E A
  pure a s = (ok a, s)

  unfoldable pub raise : E → Action S E A
  raise e s = (err e, s)

  unfoldable pub lift : Result E A → Action S E A
  lift r s = (r, s)

  unfoldable pub gets : (S → A) → Action S E A
  gets f s = (ok (f s), s)

-- `let _ = …`: the error is dropped.
unfoldable pub attempt : {S E F A : Type 0} → Action S E A → Action S F (Unit {0})
attempt action s = (ok tt, (action s).1)

module _ {S E : Type 0} where
  unfoldable pub modify : (S → S) → Action S E (Unit {0})
  modify f s = (ok tt, f s)

  unfoldable pub raise_if : Bool → E → Action S E (Unit {0})
  raise_if true e s = (err e, s)
  raise_if false e s = (ok tt, s)

abbrev pub continue :
    {S E A B : Type 0} → Result E A × S → (A → S → Result E B × S) → Result E B × S
continue (ok a, s) next = next a s
continue (err e, s) next = (err e, s)

infixl 5 ◌>>=◌ ◌>>◌
unfoldable pub ◌>>=◌ : {S E A B : Type 0} → Action S E A → (A → Action S E B) → Action S E B
unfolding pure raise lift gets attempt modify raise_if
◌>>=◌ first next s = continue (first s) next

abbrev pub ◌>>◌ : {S E A B : Type 0} → Action S E A → Action S E B → Action S E B
first >> next = first >>= λ _. next
