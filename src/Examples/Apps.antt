-- ===== src/Examples/Apps.antt =====
-- The programs of mipsapps at small inputs.
use mathlib.Core.Bool.{Bool}
use cspim.Base.{
  ℕ, ◌≡◌, ◌≢◌, ◌⊎◌, refl, arith, if◌then◌else◌, ◌==◌, leb, u32, none, some, List, [], ◌∷◌,
}
use cspim.Apps.{Output, int, text, char}
use cspim.Apps.Hanoi
use cspim.Apps.Hanoi.Moves.{Solution, main-Solution}
use cspim.Apps.Fact.{fact, factorial, nesting, fact_lem}
use cspim.Apps.Digits
use cspim.Apps.Digits.{spelled, AreDigits, number, top_digit, main-digits}
use cspim.Apps.Matrix
use cspim.Apps.Matrix.{Arrays, inner, a_entry, b_entry}
use cspim.Apps.Matrix.Product.{main-inner}

main-Solution_example :
    (moves : List Output) × (Hanoi.main 3 b'y'
      ≡ (text "n? " ∷ text "output moves [y/n]? " ∷ moves, 0))
    × Solution 3 moves
main-Solution_example = main-Solution 3 (omega arith) (omega arith)

two_disks : Hanoi.hanoi 2 Bool.true 1 2 3 ≡ (
    int 1
    ∷ text "->"
    ∷ int 3
    ∷ char 10
    ∷ int 1
    ∷ text "->"
    ∷ int 2
    ∷ char 10
    ∷ int 3
    ∷ text "->"
    ∷ int 2
    ∷ char 10
    ∷ [])
unfolding Hanoi.hanoi
two_disks = refl

fact_lem_example :
    fact 20 13
    ≡ (if leb (nesting 13) 20 then some (if 13 == 0 then 0 else u32 (factorial 13)) else none)
fact_lem_example = fact_lem 20 13 (omega arith)

fact_runs : fact 20 13 ≡ some 1932053504
unfolding fact
fact_runs = refl

main-digits_example :
    (ds : List ℕ) × (Digits.main 2008 ≡ some (text "? " ∷ spelled ds))
    × AreDigits ds
    × (number ds ≡ 2008)
    × (◌≡◌ {A = ℕ} 2008 0 ⊎ (top_digit ds ≢ 0))
main-digits_example = main-digits 2008 (omega arith)

-- Static arrays start with zeros.
abbrev zeros : Arrays
zeros = record { a = λ i j. 0; b = λ i j. 0; c = λ i j. 0 }

main-inner_example : (Matrix.main 3 10 20 0 zeros).1.c 1 2 ≡ u32 (inner 3 0 a_entry b_entry 1 2)
main-inner_example =
    main-inner 3 10 20 0 zeros 1 2 (omega arith) (omega arith) (omega arith) (omega arith)

matrix_runs : (Matrix.main 3 10 20 0 zeros).1.c 1 2 ≡ 4294967292
unfolding Matrix.main
matrix_runs = refl
