-- ===== src/Daemon/Controller/Preserved.antt =====
-- What a method of crates/ompd/src/controller.rs preserves, by its steps.
use omp_remote.Prelude.{Bool, true, false, Result, ok, err}
use omp_remote.Daemon.Controller.Action.{
  Action, ◌>>=◌, pure, raise, lift, gets, attempt, modify, raise_if, continue,
}

-- After the action, whether it fails or not, what held of the state holds again.
pub record Preserves {S E A : Type 0} (Holds : S → Type 0) (action : Action S E A) : Type 0 where
  pub after : (s : S) → Holds s → Holds (action s).1

module _ {S E A : Type 0} {Holds : S → Type 0} where
  pub Preserves-pure : (a : A) → Preserves Holds (pure {E = E} a)
  unfolding pure
  Preserves-pure a = record { after = λ s h. h }

  pub Preserves-raise : (e : E) → Preserves Holds (raise {A = A} e)
  unfolding raise
  Preserves-raise e = record { after = λ s h. h }

  pub Preserves-lift : (r : Result E A) → Preserves Holds (lift r)
  unfolding lift
  Preserves-lift r = record { after = λ s h. h }

  pub Preserves-gets : (f : S → A) → Preserves Holds (gets {E = E} f)
  unfolding gets
  Preserves-gets f = record { after = λ s h. h }

module _ {S E F A : Type 0} {Holds : S → Type 0} where
  pub Preserves-attempt :
      (action : Action S E A) → Preserves Holds action → Preserves Holds (attempt {F = F} action)
  unfolding attempt
  Preserves-attempt action p = record { after = λ s h. p.after s h }

module _ {S E : Type 0} {Holds : S → Type 0} where
  pub Preserves-modify :
      (f : S → S) → ((s : S) → Holds s → Holds (f s)) → Preserves Holds (modify {E = E} f)
  unfolding modify
  Preserves-modify f p = record { after = p }

  pub Preserves-raise_if : (b : Bool) (e : E) → Preserves Holds (raise_if b e)
  unfolding raise_if
  Preserves-raise_if true e = record { after = λ s h. h }
  Preserves-raise_if false e = record { after = λ s h. h }

module _ {S E A B : Type 0} {Holds : S → Type 0} where
  continue-Holds :
      (r : Result E A) (next : A → Action S E B) (s : S)
      → ((a : A) → Preserves Holds (next a))
      → Holds s
      → Holds (continue (r, s) next).1
  continue-Holds (ok a) next s p h = (p a).after s h
  continue-Holds (err e) next s p h = h

  pub Preserves-bind :
      (first : Action S E A) (next : A → Action S E B)
      → Preserves Holds first
      → ((a : A) → Preserves Holds (next a))
      → Preserves Holds (first >>= next)
  unfolding ◌>>=◌
  Preserves-bind first next p q = record {
    after = λ s h. let (r, s') = first s in continue-Holds r next s' q (p.after s h);
  }

-- One step, and the rest of the method.
infixr 5 ◌▸◌
pub ◌▸◌ :
    {S E A B : Type 0} {Holds : S → Type 0} {first : Action S E A} {next : A → Action S E B}
    → Preserves Holds first
    → ((a : A) → Preserves Holds (next a))
    → Preserves Holds (first >>= next)
p ▸ q = Preserves-bind _ _ p q

pub ruleset steps = (
  Preserves-pure, Preserves-raise, Preserves-lift, Preserves-gets, Preserves-attempt,
  Preserves-raise_if, Preserves-bind,
)
