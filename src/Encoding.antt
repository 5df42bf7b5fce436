-- ===== src/Encoding.antt =====
-- The simulator of vm/cpuemu.c over two encodings of the same memory: one CPU keeps its words one
-- way, for example plain, and the other in another way, for example encrypted by hostapps/util.c.
pub mod Registers
pub mod Words
pub mod LoadStore
pub mod Execution
use cspim.Base.{ℕ, ◌≡◌, refl, ◌==◌, if◌then◌else◌, Bool, true, false}
use cspim.Cpu.{
  Memory, MipsCpu, Exception, Outcome, done, thrown, undefined, Command, and_then, ◌>>=◌, ◌>>◌,
  throw, throw_if, set_ur, write_reg,
}
use cspim.Memory.Checked.{IsSafe, Inside}

-- Access functions.
pub record Access : Type 0 where
  pub peek : Memory → ℕ → ℕ
  pub poke : Memory → ℕ → ℕ → Memory

-- The CPU `c` with the block `b` that is kept by other access functions.
abbrev pub recoded : Access → MipsCpu → Memory → MipsCpu
recoded f c b = record c { base = b; peek_uw = f.peek; poke_uw = f.poke }

-- Both blocks hold the same words in the part that the program may access.
pub record SameWords (f : Access) (c : MipsCpu) (b : Memory) : Type 0 where
  pub safe : IsSafe c
  pub safe' : IsSafe (recoded f c b)
  pub words : (a : ℕ) → Inside c a → c.peek_uw c.base a ≡ f.peek b a

-- Outcomes that agree: the same result or exception, in states that differ in the encoding only.
pub data Agree (f : Access) {A : Type 0} : Outcome A → Outcome A → Type 0 where
  returns :
      (a : A) (c : MipsCpu) (b : Memory)
      → SameWords f c b
      → Agree f (done a c) (done a (recoded f c b))
  jumps :
      (e : Exception) (c : MipsCpu) (b : Memory)
      → SameWords f c b
      → Agree f (thrown e c) (thrown e (recoded f c b))
  breaks : Agree f undefined undefined

-- A command that does the same on both CPUs.
abbrev pub IsUniform : {A : Type 0} → Access → Command A → Type 0
IsUniform f m = (c : MipsCpu) (b : Memory) → SameWords f c b → Agree f (m c) (m (recoded f c b))

module _ {f : Access} where
  pub and_then-Agree :
      {A B : Type 0} (k : A → Command B) {o o' : Outcome A}
      → Agree f o o'
      → ((a : A) → IsUniform f (k a))
      → Agree f (and_then o k) (and_then o' k)
  and_then-Agree k (returns a c b s) h = h a c b s
  and_then-Agree k (jumps e c b s) h = jumps e c b s
  and_then-Agree k breaks h = breaks

  -- The registers have no part in the encoding.
  pub with_registers :
      {c : MipsCpu} {b : Memory} (ur : ℕ → ℕ) (hi lo pc ds : ℕ)
      → SameWords f c b
      → SameWords f (record c { ur = ur; hi = hi; lo = lo; pc = pc; delay_slot = ds }) b
  with_registers ur hi lo pc ds s = record {
    safe = record {
      access = s.safe.access;
      bytes = s.safe.bytes;
      whole_words = s.safe.whole_words;
      address_space = s.safe.address_space;
    };
    safe' = record {
      access = s.safe'.access;
      bytes = s.safe'.bytes;
      whole_words = s.safe'.whole_words;
      address_space = s.safe'.address_space;
    };
    words = s.words;
  }

  pub done-IsUniform : {A : Type 0} (a : A) → IsUniform f (λ c. done a c)
  done-IsUniform a c b s = returns a c b s

  pub throw-IsUniform : {A : Type 0} (e : Exception) → IsUniform f (throw {A = A} e)
  throw-IsUniform e c b s = jumps e c b s

  pub if-IsUniform :
      {A : Type 0} (t : Bool) {m m' : Command A}
      → IsUniform f m
      → IsUniform f m'
      → IsUniform f (λ c. if t then m c else m' c)
  if-IsUniform true h g = h
  if-IsUniform false h g = g

  pub throw_if-IsUniform : (t : Bool) (e : Exception) → IsUniform f (throw_if t e)
  throw_if-IsUniform t e = if-IsUniform t (throw-IsUniform e) (done-IsUniform tt)

  pub write_reg-IsUniform : (r : ℕ) (m : Command ℕ) → IsUniform f m → IsUniform f (write_reg r m)
  write_reg-IsUniform r m h = if-IsUniform (r == 0) (done-IsUniform tt) written
    where
      written : IsUniform f (λ c. and_then (m c) (λ v c'. done tt (set_ur r v c')))
      written c b s =
          and_then-Agree (λ v c'. done tt (set_ur r v c')) (h c b s)
            λ v c' b' s'. returns tt _ _ (with_registers _ _ _ _ _ s')
