-- ===== src/Apps/Hanoi.antt =====
-- mipsapps/hanoi.c: the moves that solve the towers of Hanoi, and the rules of the game.
pub mod Moves
use Prim.Native.String.{String}
use cspim.Base.{
  ℕ, zero, suc, ◌^◌, ◌==◌, if◌then◌else◌, ◌||◌, ltb, leb, Bool, true, false, Option, none, some,
  List, [], ◌∷◌, ◌++◌,
}
use cspim.Apps.{Output, int, text, char}

unfoldable pub print_move : Bool → ℕ → ℕ → List Output
print_move verbose from to = if verbose then int from ∷ text "->" ∷ int to ∷ char b'\n' ∷ [] else []

-- `n` is not negative, since `main` refuses such a number.
unfoldable pub hanoi : ℕ → Bool → ℕ → ℕ → ℕ → List Output
unfolding print_move
hanoi zero verbose from to extra = []
hanoi (suc n) verbose from to extra =
    hanoi n verbose from extra to ++ (print_move verbose from to ++ hanoi n verbose extra to from)

-- `main`: what it prints for a number and an answer, and what it returns.
unfoldable pub main : ℕ → ℕ → List Output × ℕ
unfolding hanoi
main n answer =
    if n == 0 || leb (2 ^ 31) n
    then (text "n? " ∷ text "invalid input\n" ∷ [], 1)
    else (text "n? " ∷ text "output moves [y/n]? " ∷ hanoi n (answer == b'y') 1 2 3, 0)

-- The rules: a disk is taken from the top of a peg, and put on none that is smaller.
abbrev pub Pegs : Type 0
Pegs = ℕ → List ℕ

abbrev pub put : Pegs → ℕ → List ℕ → Pegs
put p i xs k = if k == i then xs else p k

abbrev pub fits : ℕ → List ℕ → Bool
fits d [] = true
fits d (x ∷ xs) = ltb d x

abbrev pub placed : Pegs → ℕ → ℕ → ℕ → List ℕ → Option Pegs
placed p from to d rest = if fits d (p to) then some (put (put p from rest) to (d ∷ p to)) else none

unfoldable pub move_top : Pegs → ℕ → ℕ → List ℕ → Option Pegs
move_top p from to [] = none
move_top p from to (d ∷ rest) = placed p from to d rest

-- The printed moves, made one after the other.
unfoldable pub replay : List Output → Pegs → Option Pegs
unfolding move_top
replay [] p = some p
replay (int from ∷ text _ ∷ int to ∷ char _ ∷ out) p = elim (move_top p from to (p from)) [
  | none ↦ none
  | some q ↦ replay out q
]
replay _ p = none
