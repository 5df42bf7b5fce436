-- ===== src/Elf/Ensures.antt =====
-- What a command of vm/elfload.c ensures of its result and of the state that it leaves, where C
-- defines what it does.
use cspim.Base.{
  ℕ, ◌+◌, Bool-cases, inl, inr, ltb, ◌==◌, ◌/◌, ◌*◌, ◌^◌, Bool, true, false, Option, none, some,
  arith, IsByte, IsWord, IsHalf,
}
use cspim.Cpu.{Command, Exception, MipsCpu, Command, Outcome, done, thrown, undefined, and_then}
use cspim.Elf.Symbols.{follow, divide_sizes}
use cspim.Elf.{
  or_else, differs, fail_if, null_check, product_of_halves, read_byte, read_half, read_word,
}

-- `q` holds of the result and the state, and `r` of the state of a jump to the handler.
pub data Ensures {A : Type 0} (q : A → MipsCpu → Type 0) (r : MipsCpu → Type 0)
    : Outcome A → Type 0 where
  returns : (a : A) (c : MipsCpu) → q a c → Ensures q r (done a c)
  jumps : (e : Exception) (c : MipsCpu) → r c → Ensures q r (thrown e c)
  breaks : Ensures q r undefined

pub and_then-Ensures :
    {A B : Type 0} {q : A → MipsCpu → Type 0} {q' : B → MipsCpu → Type 0} {r : MipsCpu → Type 0}
    (o : Outcome A) (k : A → Command B)
    → Ensures q r o
    → ((a : A) (c : MipsCpu) → q a c → Ensures q' r (k a c))
    → Ensures q' r (and_then o k)
and_then-Ensures o k (returns a c h) g = g a c h
and_then-Ensures o k (jumps e c h) g = jumps e c h
and_then-Ensures o k breaks g = breaks

-- A command that only looks at the state, and what holds of its result.
pub data Looks {A : Type 0} (c : MipsCpu) (p : A → Type 0) : Outcome A → Type 0 where
  sees : (a : A) → p a → Looks c p (done a c)
  crashes : Looks c p undefined

pub and_then-Looks :
    {A B : Type 0} {c : MipsCpu} {p : A → Type 0} {p' : B → Type 0} (o : Outcome A)
    (k : A → Command B)
    → Looks c p o
    → ((a : A) → p a → Looks c p' (k a c))
    → Looks c p' (and_then o k)
and_then-Looks o k (sees a h) g = g a h
and_then-Looks o k crashes g = crashes

pub look_first-Ensures :
    {A B : Type 0} {c : MipsCpu} {p : A → Type 0} {q : B → MipsCpu → Type 0} {r : MipsCpu → Type 0}
    (o : Outcome A) (k : A → Command B)
    → Looks c p o
    → ((a : A) → p a → Ensures q r (k a c))
    → Ensures q r (and_then o k)
look_first-Ensures o k (sees a h) g = g a h
look_first-Ensures o k crashes g = breaks

-- The bytes of the image.
abbrev pub IsImage : MipsCpu → Type 0
IsImage c = (j : ℕ) → IsByte (c.elf j)

module _ (c : MipsCpu) (image : IsImage c) (off : ℕ) where
  pub read_byte-Looks : Looks c IsByte (read_byte off c)
  read_byte-Looks = elim (Bool-cases (ltb off c.elfsz)) [
    | inl e ↦ rw e (sees (c.elf off) (image off))
    | inr e ↦ rw e crashes
  ]

  pub read_half-Looks : Looks c IsHalf (read_half off c)
  read_half-Looks = elim (Bool-cases (ltb c.elfsz (off + 2))) [
    | inl e ↦ rw e crashes
    | inr e ↦ rw e (sees _ (omega (arith, image off, image (off + 1))))
  ]

  pub read_word-Looks : Looks c IsWord (read_word off c)
  read_word-Looks = elim (Bool-cases (ltb c.elfsz (off + 4))) [
    | inl e ↦ rw e crashes
    | inr e ↦
        rw e (sees _ (omega (arith, image off, image (off + 1), image (off + 2), image (off + 3))))
  ]

-- A command that only looks, whatever its result.
abbrev pub OnlyLooks : {A : Type 0} → MipsCpu → Outcome A → Type 0
OnlyLooks c = Looks c (λ _. Unit {0})

pub looks_at : {A : Type 0} {c : MipsCpu} (a : A) → OnlyLooks c (done a c)
looks_at a = sees a tt

pub fail_if-Looks :
    {A : Type 0} {c : MipsCpu} {p : A → Type 0} (b : Bool) (a : A) (m : Command A)
    → p a
    → Looks c p (m c)
    → Looks c p (fail_if b a m c)
unfolding fail_if
fail_if-Looks true a m h g = sees a h
fail_if-Looks false a m h g = g

pub fail_if-Ensures :
    {A : Type 0} {c : MipsCpu} {q : A → MipsCpu → Type 0} {r : MipsCpu → Type 0} (b : Bool) (a : A)
    (m : Command A)
    → q a c
    → Ensures q r (m c)
    → Ensures q r (fail_if b a m c)
unfolding fail_if
fail_if-Ensures {c = c} true a m h g = returns a c h
fail_if-Ensures false a m h g = g

pub null_check-Looks :
    {A B : Type 0} {c : MipsCpu} {p : B → Type 0} (o : Option A) (r : B) (k : A → Command B)
    → p r
    → ((a : A) → Looks c p (k a c))
    → Looks c p (null_check o r k c)
unfolding null_check
null_check-Looks none r k h g = sees r h
null_check-Looks (some a) r k h g = g a

pub null_check-Ensures :
    {A B : Type 0} {c : MipsCpu} {q : B → MipsCpu → Type 0} {r : MipsCpu → Type 0} (o : Option A)
    (b : B) (k : A → Command B)
    → q b c
    → ((a : A) → Ensures q r (k a c))
    → Ensures q r (null_check o b k c)
unfolding null_check
null_check-Ensures {c = c} none b k h g = returns b c h
null_check-Ensures (some a) b k h g = g a

module _ (c : MipsCpu) where
  pub product_of_halves-OnlyLooks : (a b : ℕ) → OnlyLooks c (product_of_halves a b c)
  product_of_halves-OnlyLooks a b = elim (Bool-cases (ltb (a * b) (2 ^ 31))) [
    | inl e ↦ rw e (looks_at (a * b))
    | inr e ↦ rw e crashes
  ]

  pub follow-OnlyLooks : (p : Option ℕ) → OnlyLooks c (follow p c)
  follow-OnlyLooks none = crashes
  follow-OnlyLooks (some p) = looks_at p

  pub divide_sizes-OnlyLooks : (a b : ℕ) → OnlyLooks c (divide_sizes a b c)
  divide_sizes-OnlyLooks a b = elim (Bool-cases (b == 0)) [
    | inl e ↦ rw e crashes
    | inr e ↦ rw e (looks_at (a / b))
  ]

  pub or_else-OnlyLooks :
      (b : Bool) (m : Command Bool) → OnlyLooks c (m c) → OnlyLooks c (or_else b m c)
  or_else-OnlyLooks true m h = looks_at true
  or_else-OnlyLooks false m h = h

  module _ (image : IsImage c) where
    pub differs_byte : (off n : ℕ) → OnlyLooks c (differs (read_byte off) n c)
    differs_byte off n = and_then-Looks _ _ (read_byte-Looks c image off) λ v h. looks_at _

    pub differs_half : (off n : ℕ) → OnlyLooks c (differs (read_half off) n c)
    differs_half off n = and_then-Looks _ _ (read_half-Looks c image off) λ v h. looks_at _

-- What holds of the value, if there is one.
abbrev pub AllOf : {A : Type 0} → (A → Type 0) → Option A → Type 0
AllOf p none = Unit {0}
AllOf p (some a) = p a

pub checked_value-Ensures :
    {A B : Type 0} {c : MipsCpu} {p : A → Type 0} {q : B → MipsCpu → Type 0} {r : MipsCpu → Type 0}
    (o : Option A) (b : B) (k : A → Command B)
    → AllOf p o
    → q b c
    → ((a : A) → p a → Ensures q r (k a c))
    → Ensures q r (null_check o b k c)
unfolding null_check
checked_value-Ensures {c = c} none b k i h g = returns b c h
checked_value-Ensures (some a) b k i h g = g a i
