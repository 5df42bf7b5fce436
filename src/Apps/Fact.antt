-- ===== src/Apps/Fact.antt =====
-- mipsapps/fact.c: the factorial of an unsigned number by recursion.
use mathlib.Core.Option
use cspim.Base.{
  ℕ, zero, suc, ◌+◌, ◌-◌, ◌*◌, ◌%◌, ◌^◌, ◌<◌, ◌≡◌, refl, sym, ap, ◌/◌, ◌∙◌, inl, inr, ◌==◌,
  if◌then◌else◌, leb, u32, sub32, true, false, Bool-cases, Option, none, some, List, [], ◌∷◌, arith,
}
use cspim.Apps.{Output, int, text, char}

-- `fact`, for calls that are nested at most `depth` deep.
unfoldable pub fact : ℕ → ℕ → Option ℕ
fact zero n = none
fact (suc depth) n =
    let rest = fact depth (sub32 n 1) in
    if n == 1 then some 1 else Option.map (λ r. u32 (n * r)) rest

-- `main`, at the number that is read.
unfoldable pub main : ℕ → ℕ → Option (List Output)
unfolding fact
main depth n = Option.map (λ r. text "n=" ∷ text "n!=" ∷ int r ∷ char b'\n' ∷ []) (fact depth n)

pub factorial : ℕ → ℕ
factorial zero = 1
factorial (suc n) = suc n * factorial n

-- How deep the calls nest.
abbrev pub nesting : ℕ → ℕ
nesting n = if n == 0 then 2 ^ 32 else n

product_parts : (n q r : ℕ) → u32 (n * r) ≡ u32 (n * (2 ^ 32 * q + r))
product_parts n q r = grind arith

mod-product : (n x : ℕ) → u32 (n * u32 x) ≡ u32 (n * x)
mod-product n x =
    let e : x ≡ 2 ^ 32 * (x / 2 ^ 32) + x % 2 ^ 32 = omega arith in
    product_parts n (x / 2 ^ 32) (x % 2 ^ 32) ∙ ap (λ (t : ℕ). u32 (n * t)) (sym e)

-- The answer for a number that is not 0, by induction on the depth.
fact_pos :
    (depth n : ℕ)
    → suc n < 2 ^ 32
    → fact depth (suc n) ≡ (if leb (suc n) depth then some (u32 (factorial (suc n))) else none)
unfolding fact factorial
fact_pos zero n h = let e : leb (suc n) 0 ≡ false = ground arith in rw e refl
fact_pos (suc depth) zero h = let e : leb 1 (suc depth) ≡ true = ground arith in rw e refl
fact_pos (suc depth) (suc n) h =
    let before : sub32 (suc (suc n)) 1 ≡ suc n = omega arith in
    let ne : (suc (suc n) == 1) ≡ false = ground arith in
    let deeper : leb (suc (suc n)) (suc depth) ≡ leb (suc n) depth = ground arith in
    rw (before, ne, deeper, fact_pos depth n (omega arith))
      (elim (Bool-cases (leb (suc n) depth)) [
        | inl e ↦ rw e (ap some (mod-product (suc (suc n)) (factorial (suc n))))
        | inr e ↦ rw e refl
      ])

-- From 0 the calls go on with the largest number.
wrapped :
    (depth n : ℕ)
    → suc n ≡ 2 ^ 32 - 1
    → Option.map (λ r. u32 (0 * r)) (fact depth (2 ^ 32 - 1))
      ≡ (if leb (2 ^ 32) (suc depth) then some 0 else none)
wrapped depth n e =
    let deeper : leb (2 ^ 32) (suc depth) ≡ leb (suc n) depth = ground arith in
    rw (← e, fact_pos depth n (omega arith))
      (elim (Bool-cases (leb (suc n) depth)) [
        | inl f ↦
            let g : leb (2 ^ 32) (suc depth) ≡ true = ground arith in
            rw (f, g) (ap some (omega arith))
        | inr f ↦ let g : leb (2 ^ 32) (suc depth) ≡ false = ground arith in rw (f, g) refl
      ])

-- For a 32-bit number, fact of fact.c returns exactly if its calls may nest as deep as the number
-- says, or 2 ^ 32 deep for 0; it returns the factorial modulo 2 ^ 32 then, and 0 for 0.
pub fact_lem :
    (depth n : ℕ)
    → n < 2 ^ 32
    → fact depth n
      ≡ (if leb (nesting n) depth then some (if n == 0 then 0 else u32 (factorial n)) else none)
unfolding fact
fact_lem zero zero h = refl
fact_lem (suc depth) zero h = wrapped depth (2 ^ 32 - 2) (omega arith)
fact_lem depth (suc n) h =
    let ne : (suc n == 0) ≡ false = ground arith in rw ne (fact_pos depth n h)
