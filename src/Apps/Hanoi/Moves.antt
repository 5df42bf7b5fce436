-- ===== src/Apps/Hanoi/Moves.antt =====
-- The output of mipsapps/hanoi.c, replayed as moves.
use mathlib.Core.List.{append_assoc, append-nil}
use native.Mathlib.Nat.{pow-suc}
use cspim.Base.{
  ℕ, zero, suc, ◌+◌, ◌*◌, ◌^◌, ◌<◌, ◌≡◌, ◌≢◌, refl, sym, ap, ◌∙◌, ◌==◌, eq→==, ne→==, if◌then◌else◌,
  ◌||◌, leb, lt→ltb, true, false, Option, none, some, List, [], ◌∷◌, ◌++◌, length, arith,
}
use cspim.Apps.{Output, text}
use cspim.Apps.Hanoi.{print_move, hanoi, main, Pegs, put, fits, move_top, replay}

-- `n` disks, the smallest one on top.
abbrev pub tower : ℕ → List ℕ
tower zero = []
tower (suc n) = tower n ++ (suc n ∷ [])

abbrev Above : ℕ → List ℕ → Type 0
Above n [] = Unit {0}
Above n (x ∷ xs) = n < x

Above-weaken : (n : ℕ) (xs : List ℕ) → Above (suc n) xs → Above n xs
Above-weaken n [] h = tt
Above-weaken n (x ∷ xs) h = omega arith

Above-fits : (n : ℕ) (xs : List ℕ) → Above n xs → fits n xs ≡ true
Above-fits n [] h = refl
Above-fits n (x ∷ xs) h = lt→ltb n x h

-- The `n` disks on top of `from` have gone to the top of `to`.
record Moved (n from to extra : ℕ) (rest : List ℕ) (p q : Pegs) : Type 0 where
  source : q from ≡ rest
  target : q to ≡ tower n ++ p to
  spare : q extra ≡ p extra

record Solves (n from to extra : ℕ) (rest : List ℕ) (p : Pegs) : Type 0 where
  final : Pegs
  moved : Moved n from to extra rest p final
  replayed : (out : List Output) → replay (hanoi n true from to extra ++ out) p ≡ replay out final

moved :
    (q : Pegs) (from to d : ℕ) (rest : List ℕ)
    → q from ≡ d ∷ rest
    → fits d (q to) ≡ true
    → move_top q from to (q from) ≡ some (put (put q from rest) to (d ∷ q to))
unfolding move_top
moved q from to d rest e h = ap (move_top q from to) e ∙ rw h

-- One printed move.
replay-print_move :
    (from to d : ℕ) (rest : List ℕ) (q : Pegs) (out : List Output)
    → q from ≡ d ∷ rest
    → fits d (q to) ≡ true
    → replay (print_move true from to ++ out) q ≡ replay out (put (put q from rest) to (d ∷ q to))
unfolding replay move_top print_move
replay-print_move from to d rest q out e h =
    ap (λ (r : Option Pegs). elim r [ none ↦ none | some q' ↦ replay out q' ])
      (moved q from to d rest e h)

module _ (n from to extra : ℕ) (rest : List ℕ) (p : Pegs) (d1 : from ≢ to) (d2 : to ≢ extra)
    (d3 : from ≢ extra) (large : Above (suc n) (p to)) (spare : Above (suc n) (p extra))
    (first : Solves n from extra to (suc n ∷ rest) p) where
  -- Behind the move of the largest disk.
  abbrev halfway : Pegs
  halfway = put (put first.final from rest) to (suc n ∷ first.final to)

  halfway-from : halfway from ≡ rest
  halfway-from = rw (ne→== from to d1, eq→== from from refl)

  halfway-to : halfway to ≡ suc n ∷ p to
  halfway-to = rw (eq→== to to refl) (ap (λ (xs : List ℕ). suc n ∷ xs) first.moved.spare)

  halfway-extra : halfway extra ≡ tower n ++ p extra
  halfway-extra =
      rw (ne→== extra to (λ e. d2 (sym e)), ne→== extra from (λ e. d3 (sym e))) first.moved.target

  composed : Solves n extra to from (p extra) halfway → Solves (suc n) from to extra rest p
  unfolding hanoi
  composed second = record {
    final = second.final;
    moved = record {
      source = second.moved.spare ∙ halfway-from;
      target =
          second.moved.target
          ∙ ap (λ (xs : List ℕ). tower n ++ xs) halfway-to
          ∙ sym (append_assoc (tower n) (suc n ∷ []) (p to));
      spare = second.moved.source;
    };
    replayed = λ out.
        rw (append_assoc, append_assoc, first.replayed)
          (replay-print_move from to (suc n) rest first.final (hanoi n true extra to from ++ out)
              first.moved.source (rw first.moved.spare (Above-fits (suc n) (p to) large))
            ∙ second.replayed out);
  }

hanoi-Solves :
    (n from to extra : ℕ) (rest : List ℕ) (p : Pegs)
    → from ≢ to
    → to ≢ extra
    → from ≢ extra
    → p from ≡ tower n ++ rest
    → Above n rest
    → Above n (p to)
    → Above n (p extra)
    → Solves n from to extra rest p
unfolding hanoi
hanoi-Solves zero from to extra rest p d1 d2 d3 e h1 h2 h3 = record {
  final = p;
  moved = record { source = e; target = refl; spare = refl };
  replayed = λ out. refl;
}
hanoi-Solves (suc n) from to extra rest p d1 d2 d3 e h1 h2 h3 =
    let first =
      hanoi-Solves n from extra to (suc n ∷ rest) p d3 (λ e. d2 (sym e)) d1
        (e ∙ append_assoc (tower n) (suc n ∷ []) rest) (omega arith) (Above-weaken n (p extra) h3)
        (Above-weaken n (p to) h2) in
    composed n from to extra rest p d1 d2 d3 h2 h3 first (
      hanoi-Solves n extra to from (p extra) (halfway n from to extra rest p d1 d2 d3 h2 h3 first)
        (λ e. d2 (sym e)) (λ e. d1 (sym e)) (λ e. d3 (sym e))
        (halfway-extra n from to extra rest p d1 d2 d3 h2 h3 first) (Above-weaken n (p extra) h3)
        (rw (halfway-to n from to extra rest p d1 d2 d3 h2 h3 first) (omega arith))
        (rw (halfway-from n from to extra rest p d1 d2 d3 h2 h3 first) (Above-weaken n rest h1)))

length-append : (xs ys : List Output) → length (xs ++ ys) ≡ length xs + length ys
length-append [] ys = omega arith
length-append (x ∷ xs) ys = omega (arith, length-append xs ys)

length-hanoi : (n from to extra : ℕ) → length (hanoi n true from to extra) + 4 ≡ 4 * 2 ^ n
unfolding hanoi print_move
length-hanoi zero from to extra = refl
length-hanoi (suc n) from to extra = omega (
  arith,
  length-append (hanoi n true from extra to)
      (print_move true from to ++ hanoi n true extra to from),
  length-hanoi n from extra to,
  length-hanoi n extra to from,
  pow-suc 2 n,
)

abbrev start : ℕ → Pegs
start n k = if k == 1 then tower n else []

-- The printed moves obey the rules, take the tower from the first peg to the second, and are
-- 2 ^ n - 1, of four calls each.
pub record Solution (n : ℕ) (moves : List Output) : Type 0 where
  pub final : Pegs
  pub played : replay moves (start n) ≡ some final
  pub source : final 1 ≡ []
  pub target : final 2 ≡ tower n
  pub spare : final 3 ≡ []
  pub count : length moves + 4 ≡ 4 * 2 ^ n

hanoi-Solution : (n : ℕ) → Solution n (hanoi n true 1 2 3)
unfolding replay
hanoi-Solution n =
    let s =
      hanoi-Solves n 1 2 3 [] (start n) (omega arith) (omega arith) (omega arith)
        (sym (append-nil (tower n))) tt tt tt in
    record {
      final = s.final;
      played = rw append-nil at (s.replayed []);
      source = s.moved.source;
      target = s.moved.target ∙ append-nil (tower n);
      spare = s.moved.spare;
      count = length-hanoi n 1 2 3;
    }

-- For a number n from 1 to 2 ^ 31 - 1 and the answer y, what main of hanoi.c prints behind its two
-- questions are moves that, made one after the other, take only top disks and put none on a
-- smaller one, and bring the tower of n disks from the first peg to the second; they are 2 ^ n - 1
-- moves, of four print calls each, and main returns 0.
pub main-Solution :
    (n : ℕ)
    → 0 < n
    → n < 2 ^ 31
    → (moves : List Output) × (main n b'y' ≡ (text "n? " ∷ text "output moves [y/n]? " ∷ moves, 0))
      × Solution n moves
unfolding main
main-Solution n pos h =
    let ne : (n == 0 || leb (2 ^ 31) n) ≡ false = ground arith in
    (hanoi n true 1 2 3, rw ne refl, hanoi-Solution n)
