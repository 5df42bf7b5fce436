-- ===== src/Apps/Digits.antt =====
-- mipsapps/digits.c: the digits of a number by their names, the lowest one first.
use Prim.Native.String.{String}
use mathlib.Core.Option
use native.Mathlib.Nat.{pow-suc}
use cspim.Base.{
  ℕ, zero, suc, ◌+◌, ◌*◌, ◌/◌, ◌%◌, ◌^◌, ◌<◌, ◌≡◌, ◌≢◌, ◌⊎◌, refl, inl, inr, ◌==◌, if◌then◌else◌,
  leb, true, false, Bool-cases, Option, none, some, List, [], ◌∷◌, get_or, arith,
}
use cspim.Apps.{Output, text, char}

abbrev pub names : List String
names = "zero" ∷ "one" ∷ "two" ∷ "three" ∷ "four" ∷ "five" ∷ "six" ∷ "seven" ∷ "eight" ∷ "nine" ∷ []

-- `print_digits`, for at most `n` turns. `main` refuses a negative number.
unfoldable pub print_digits : ℕ → ℕ → Option (List Output)
print_digits zero x = none
print_digits (suc n) x =
    let rest = print_digits n (x / 10) in
    Option.map (λ out. text (get_or names (x % 10) "") ∷ char b' ' ∷ out)
      (if x / 10 == 0 then some (char b'\n' ∷ []) else rest)

-- `main`, at the number that is read. An `int` of 32 bits has ten digits at most.
unfoldable pub main : ℕ → Option (List Output)
unfolding print_digits
main n =
    if leb (2 ^ 31) n
    then some (text "? " ∷ text "invalid input\n" ∷ [])
    else Option.map (λ out. text "? " ∷ out) (print_digits 10 n)

-- The name of a digit.
abbrev pub digit_name : ℕ → String
digit_name d =
    if d == 0
    then "zero"
    else if d == 1
    then "one"
    else if d == 2
    then "two"
    else if d == 3
    then "three"
    else if d == 4
    then "four"
    else if d == 5
    then "five"
    else if d == 6
    then "six"
    else if d == 7
    then "seven"
    else if d == 8
    then "eight"
    else if d == 9
    then "nine"
    else ""

names-digit_name : (d : ℕ) → d < 10 → get_or names d "" ≡ digit_name d
names-digit_name zero h = refl
names-digit_name (suc zero) h = refl
names-digit_name (suc (suc zero)) h = refl
names-digit_name (suc (suc (suc zero))) h = refl
names-digit_name (suc (suc (suc (suc zero)))) h = refl
names-digit_name (suc (suc (suc (suc (suc zero))))) h = refl
names-digit_name (suc (suc (suc (suc (suc (suc zero)))))) h = refl
names-digit_name (suc (suc (suc (suc (suc (suc (suc zero))))))) h = refl
names-digit_name (suc (suc (suc (suc (suc (suc (suc (suc zero)))))))) h = refl
names-digit_name (suc (suc (suc (suc (suc (suc (suc (suc (suc zero))))))))) h = refl
names-digit_name (suc (suc (suc (suc (suc (suc (suc (suc (suc (suc n)))))))))) h =
    absurd (omega (arith, h))

-- The output for a list of digits, and the number that they stand for.
abbrev pub spelled : List ℕ → List Output
spelled [] = char b'\n' ∷ []
spelled (d ∷ ds) = text (digit_name d) ∷ char b' ' ∷ spelled ds

abbrev pub number : List ℕ → ℕ
number [] = 0
number (d ∷ ds) = d + 10 * number ds

-- Decimal digits, with no zero in front but for the number 0 itself.
abbrev pub AreDigits : List ℕ → Type 0
AreDigits [] = Unit {0}
AreDigits (d ∷ ds) = (d < 10) × AreDigits ds

abbrev pub top_digit : List ℕ → ℕ
top_digit [] = 0
top_digit (d ∷ []) = d
top_digit (d ∷ e ∷ ds) = top_digit (e ∷ ds)

pub record Spells (x : ℕ) (out : Option (List Output)) : Type 0 where
  pub digits : List ℕ
  pub printed : out ≡ some (spelled digits)
  pub decimal : AreDigits digits
  pub value : number digits ≡ x
  pub no_zero : x ≢ 0 → top_digit digits ≢ 0

top_digit-cons : (d : ℕ) (ds : List ℕ) → number ds ≢ 0 → top_digit (d ∷ ds) ≡ top_digit ds
top_digit-cons d [] h = absurd (h refl)
top_digit-cons d (e ∷ ds) h = refl

-- One more digit in front of the others.
extended :
    (n x : ℕ)
    → (x / 10 == 0) ≡ false
    → Spells (x / 10) (print_digits n (x / 10))
    → Spells x (print_digits (suc n) x)
unfolding print_digits
extended n x e s =
    let more : x / 10 ≢ 0 = ground arith in
    record {
      digits = x % 10 ∷ s.digits;
      printed = rw (e, s.printed, names-digit_name (x % 10) (omega arith)) refl;
      decimal = (omega arith, s.decimal);
      value = omega (arith, s.value);
      no_zero = λ h. rw (top_digit-cons (x % 10) s.digits (rw s.value more)) (s.no_zero more);
    }

single : (n x : ℕ) → (x / 10 == 0) ≡ true → Spells x (print_digits (suc n) x)
unfolding print_digits
single n x e = record {
  digits = x % 10 ∷ [];
  printed = rw (e, names-digit_name (x % 10) (omega arith)) refl;
  decimal = (omega arith, tt);
  value = ground arith;
  no_zero = ground arith;
}

print_digits-Spells : (n x : ℕ) → x < 10 ^ suc n → Spells x (print_digits (suc n) x)
print_digits-Spells zero x h = single 0 x (ground arith)
print_digits-Spells (suc n) x h = elim (Bool-cases (x / 10 == 0)) [
  | inl e ↦ single (suc n) x e
  | inr e ↦
      extended (suc n) x e
        (print_digits-Spells n (x / 10) (omega (arith, pow-suc 10 (suc n), pow-suc 10 n)))
]

-- For a number below 2 ^ 31, main of digits.c prints its question and the names of decimal digits
-- that stand for the number, the lowest one first, with no zero in front of a number other than 0.
pub main-digits :
    (n : ℕ)
    → n < 2 ^ 31
    → (ds : List ℕ) × (main n ≡ some (text "? " ∷ spelled ds))
      × AreDigits ds
      × (number ds ≡ n)
      × ((n ≡ 0) ⊎ (top_digit ds ≢ 0))
unfolding main
main-digits n h =
    let e : leb (2 ^ 31) n ≡ false = ground arith in
    let s = print_digits-Spells 9 n (omega arith) in
    (
      s.digits,
      rw (e, s.printed) refl,
      s.decimal,
      s.value,
      elim (Bool-cases (n == 0)) [
        | inl z ↦ inl (ground arith)
        | inr z ↦ inr (s.no_zero (ground arith))
      ],
    )
