-- ===== src/Base/Decimals.antt =====
-- `str` of a number, and that `int` reads it back.
use orbit_flow_evo.Base.Tests.{ltb, if◌then◌else◌, Bool-cases}
use orbit_flow_evo.Base.Texts.{Text, decimal}
use Prim.Native.Nat.{ℕ, zero, suc, ◌+◌, ◌/◌, ◌%◌, ◌<◌}
use mathlib.Core.Path.{◌≡◌, ap, ◌∙◌}
use mathlib.Core.Logic.{inl, inr}
use mathlib.Core.List.{[], ◌∷◌}
use native.Mathlib.Omega.{arith}

-- The digits of `n` in front of `rest`; the fuel bounds the number of digits.
unfoldable pub digits_onto : ℕ → ℕ → Text → Text
digits_onto zero n rest = rest
digits_onto (suc fuel) n rest =
    let more = digits_onto fuel (n / 10) ((48 + n % 10) ∷ rest) in
    if ltb n 10 then (48 + n) ∷ rest else more

-- `str(n)`: a number has at most as many digits as its successor counts.
unfoldable pub str : ℕ → Text
unfolding digits_onto
str n = digits_onto (suc n) n []

decimal-digits_onto :
    (fuel n : ℕ) (rest : Text) → n < fuel → decimal 0 (digits_onto fuel n rest) ≡ decimal n rest
unfolding digits_onto decimal
decimal-digits_onto zero n rest h = elim h [ ]
decimal-digits_onto (suc fuel) n rest h = elim (Bool-cases (ltb n 10)) [
  | inl small ↦ rw small (ap (λ m. decimal m rest) (omega arith))
  | inr large ↦ rw large (
      decimal-digits_onto fuel (n / 10) ((48 + n % 10) ∷ rest) (ground arith)
      ∙ ap (λ m. decimal m rest) (omega arith))
]

-- `int(str(n)) == n`
pub decimal-str : (n : ℕ) → decimal 0 (str n) ≡ n
unfolding str decimal
decimal-str n = decimal-digits_onto (suc n) n [] (omega arith)
