-- ===== src/Prelude/Text.antt =====
-- Native strings, compared.
use Prim.Native.String.{String}
use mathlib.Core.Bool.{false≢true}
use text.Mathlib.Text.{◌==◌}
use text.Mathlib.TextEquality.{eq_iff}
use omp_remote.Prelude.Tests.{Bool-cases}
use mathlib.Core.Path.{◌∙◌, sym}
use mathlib.Core.Logic.{inl, inr}

unfoldable pub String_discrete : Discrete String
unfolding Bool-cases
String_discrete s t = elim (Bool-cases (s == t)) [
  | inl e ↦ yes ((eq_iff s t).0 e)
  | inr e ↦ no (λ p. false≢true (sym e ∙ (eq_iff s t).1 p))
]
