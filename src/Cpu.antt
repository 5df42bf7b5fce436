-- ===== src/Cpu.antt =====
-- vm/cpu.h: the state of the simulated CPU, its exceptions, and the commands that act on it.
-- `mips_init_cpu` of vm/cpuemu.c is here too.
use cspim.Base.{ℕ, ◌==◌, if◌then◌else◌, ltb, Bool, Option, none}

abbrev pub lowbase : ℕ
lowbase = 0x1000

abbrev pub max_fds : ℕ
max_fds = 16

-- The magic code of a SPIM system call.
abbrev pub spim_syscall : ℕ
spim_syscall = 0x9107c

-- -1 as an `int`.
abbrev pub minus_one : ℕ
minus_one = 0xffff_ffff

-- The bytes behind `pcpu->base`, by their offset.
abbrev pub Memory : Type 0
Memory = ℕ → ℕ

-- struct mips_cpu. The jump buffer `exn` is the outcome `thrown` of a command. `elf` gives the
-- bytes of the image, `shsymtab` and `shsymstr` are pointers into it (an offset, or `none` for
-- NULL), and `fds` holds the host's descriptors as patterns of 32 bits.
pub record MipsCpu : Type 0 where
  pub ur : ℕ → ℕ
  pub hi : ℕ
  pub lo : ℕ
  pub pc : ℕ
  pub delay_slot : ℕ
  pub base : Memory
  pub memsz : ℕ
  pub stksz : ℕ
  pub brk : ℕ
  pub elf : ℕ → ℕ
  pub elfsz : ℕ
  pub shsymtab : Option ℕ
  pub shsymstr : Option ℕ
  pub peek_uw : Memory → ℕ → ℕ
  pub poke_uw : Memory → ℕ → ℕ → Memory
  pub fds : ℕ → ℕ

-- enum mips_exception
pub data Exception : Type 0 where
  ok overflow address invalid syscall break abort : Exception

-- What a command comes to: it returns, or jumps to the exception handler (`longjmp`), both in a
-- state; or C leaves its behaviour undefined.
pub data Outcome (A : Type 0) : Type 0 where
  done : A → MipsCpu → Outcome A
  thrown : Exception → MipsCpu → Outcome A
  undefined : Outcome A

abbrev pub Command : Type 0 → Type 0
Command A = MipsCpu → Outcome A

module _ {A B : Type 0} where
  abbrev pub and_then : Outcome A → (A → Command B) → Outcome B
  and_then (done a c) k = k a c
  and_then (thrown e c) k = thrown e c
  and_then undefined k = undefined

  infixl 5 ◌>>=◌ ◌>>◌
  abbrev pub ◌>>=◌ : Command A → (A → Command B) → Command B
  m >>= k = λ c. and_then (m c) k

  abbrev pub ◌>>◌ : Command A → Command B → Command B
  m >> n = λ c. and_then (m c) (λ _. n)

-- THROW
abbrev pub throw : {A : Type 0} → Exception → Command A
throw e c = thrown e c

abbrev pub throw_if : Bool → Exception → Command (Unit {0})
throw_if b e c = if b then thrown e c else done tt c

-- A store into one cell of an array.
abbrev pub update : (ℕ → ℕ) → ℕ → ℕ → ℕ → ℕ
update f i v j = if j == i then v else f j

abbrev pub set_ur : ℕ → ℕ → MipsCpu → MipsCpu
set_ur i v c = record c { ur = update c.ur i v }

-- uW and sW: the expression is evaluated only if the register is not $0.
abbrev pub write_reg : ℕ → Command ℕ → Command (Unit {0})
write_reg r m c = if r == 0 then done tt c else and_then (m c) (λ v c'. done tt (set_ur r v c'))

-- `mips_init_cpu`, with the identity as access functions. The bytes of the block that the CPU
-- state itself takes up lie below `lowbase` and are not part of `base`.
unfoldable pub mips_init_cpu :
    (Memory → ℕ → ℕ) → (Memory → ℕ → ℕ → Memory) → Memory → ℕ → ℕ → MipsCpu
mips_init_cpu identity_peek identity_poke base memsz stksz = record {
  ur = λ _. 0;
  hi = 0;
  lo = 0;
  pc = 0;
  delay_slot = 0;
  base = base;
  memsz = memsz;
  stksz = stksz;
  brk = 0;
  elf = λ _. 0;
  elfsz = 0;
  shsymtab = none;
  shsymstr = none;
  peek_uw = identity_peek;
  poke_uw = identity_poke;
  fds = λ i. if ltb i 3 then i else minus_one;
}
