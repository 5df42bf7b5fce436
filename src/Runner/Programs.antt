-- ===== src/Runner/Programs.antt =====
-- The host programs hostapps/run.c, hostapps/runtorture.c, hostapps/runbench.c and
-- hostapps/load-lvl1.c, behind the reading of their files.
use cspim.Base.{
  ℕ, zero, suc, ◌+◌, ◌-◌, ◌*◌, ◌/◌, ◌%◌, ◌^◌, if◌then◌else◌, ltb, leb, ◌==◌, not, ◌||◌, ◌&&◌, u32,
  Option, none, some, List, [], ◌∷◌,
}
use cspim.Cpu.{
  Memory, MipsCpu, Command, Outcome, done, thrown, undefined, lowbase, mips_init_cpu, ◌>>=◌, ◌>>◌,
}
use cspim.Memory.{pure, mips_identity_peek_uw, mips_identity_poke_uw, mips_peek_uw, mips_poke_uw}
use cspim.Elf.{read_word, st_value}
use cspim.Elf.Segments.{identity_poke}
use cspim.Elf.Symbols.{mips_elf_find_symbol}
use cspim.Elf.Load.{mips_elf_load}
use cspim.Syscalls.{Host}
use cspim.Runner.{Loop, ended, running, crashed, execute_loop, AscKey, prepare_cpu, loaded}
use cspim.Runner.Torture.{Torture, execute}

-- What a program comes to: `exit(1)`, its return, or C leaves what it does undefined. `working`
-- stands for a loop that is still running after the calls that it was given.
pub data Main (A : Type 0) : Type 0 where
  exits : Main A
  returned : A → Main A
  working : Main A
  undefined_main : Main A

abbrev pub on_cpu : {A B : Type 0} → Outcome A → (A → MipsCpu → Main B) → Main B
on_cpu (done a c) k = k a c
on_cpu (thrown e c) k = undefined_main
on_cpu undefined k = undefined_main

abbrev pub unless_null : {A B : Type 0} → Option A → (A → Main B) → Main B
unless_null none k = exits
unless_null (some a) k = k a

abbrev pub behind_loop : {W B : Type 0} → Loop W → (W → MipsCpu → Main B) → Main B
behind_loop (ended message w c) k = k w c
behind_loop (running w c) k = working
behind_loop crashed k = undefined_main

-- `mips_init_cpu(base, MEMSZ, STKSZ)`, the memory in MB and the stack 16 KB.
unfoldable pub new_cpu : ℕ → Memory → MipsCpu
unfolding mips_init_cpu mips_identity_peek_uw mips_identity_poke_uw
new_cpu megabytes base =
    mips_init_cpu mips_identity_peek_uw mips_identity_poke_uw base (megabytes * 2 ^ 20)
      (16 * 2 ^ 10)

-- Elf32_Sym
abbrev pub st_size : ℕ → Command ℕ
st_size sym = read_word (sym + 8)

-- "PARAMS", "TIME", "l2_elf" and "l2_elf_size"
abbrev pub params_name : List ℕ
params_name = 0x50 ∷ 0x41 ∷ 0x52 ∷ 0x41 ∷ 0x4d ∷ 0x53 ∷ []

abbrev pub time_name : List ℕ
time_name = 0x54 ∷ 0x49 ∷ 0x4d ∷ 0x45 ∷ []

abbrev pub l2_elf_name : List ℕ
l2_elf_name = 0x6c ∷ 0x32 ∷ 0x5f ∷ 0x65 ∷ 0x6c ∷ 0x66 ∷ []

abbrev pub l2_elf_size_name : List ℕ
l2_elf_size_name = 0x6c ∷ 0x32 ∷ 0x5f ∷ 0x65 ∷ 0x6c ∷ 0x66 ∷ 0x5f ∷ 0x73 ∷ 0x69 ∷ 0x7a ∷ 0x65 ∷ []

-- The loop of `parse_params`, over `n` words from the index `i` on. `tokens` are the values of
-- `atoi` on the tokens of the text that `strtok` has left; `none` is `exit(1)`.
unfoldable pub params_loop : List ℕ → ℕ → ℕ → ℕ → Command (Option (Unit {0}))
unfolding mips_poke_uw
params_loop tokens addr zero i = pure (some tt)
params_loop [] addr (suc n) i = pure none
params_loop (v ∷ tokens) addr (suc n) i = do
  mips_poke_uw (u32 (addr + 4 * i)) v
  params_loop tokens addr n (i + 1)

unfoldable pub parse_params : List ℕ → ℕ → Command (Option (Unit {0}))
unfolding params_loop
parse_params tokens params = do
  addr ← st_value params
  size ← st_size params
  params_loop tokens addr (size / 4) 0

-- The two words of the counter, the low one first.
unfoldable pub read_time : ℕ → Command ℕ
unfolding mips_peek_uw
read_time s_time = do
  at ← st_value s_time
  high ← mips_peek_uw (u32 (at + 4))
  low ← mips_peek_uw at
  pure (high * 2 ^ 32 + low)

-- The bytes of a file at an address of the block, as `memcpy` leaves them.
abbrev pub overwritten : Memory → ℕ → (ℕ → ℕ) → ℕ → Memory
overwritten base addr src size j =
    if leb addr j && ltb j (addr + size) then src (j - addr) else base j

-- `memcpy(base + addr, src, size)`; C does not define it outside the block.
unfoldable pub memcpy_in : ℕ → (ℕ → ℕ) → ℕ → Command (Unit {0})
memcpy_in addr src size c =
    if ltb addr lowbase || ltb c.memsz (addr + size)
    then undefined
    else done tt (record c { base = overwritten c.base addr src size })

-- The image of the nested program, and its size, put into the interpreter of level 1.
unfoldable pub install_l2 : ℕ → ℕ → (ℕ → ℕ) → ℕ → Command (Unit {0})
unfolding memcpy_in identity_poke
install_l2 sl2_elf sl2_elf_size l2elf l2sz = do
  at ← st_value sl2_elf
  memcpy_in at l2elf l2sz
  size_at ← st_value sl2_elf_size
  identity_poke size_at (u32 l2sz)

module _ {W : Type 0} (host : Host W) (n : ℕ) (base : Memory) (w : W) where
  -- `main` of run.c
  unfoldable pub run_main : (ℕ → ℕ) → ℕ → Option AscKey → Main (W × MipsCpu)
  unfolding new_cpu prepare_cpu execute_loop
  run_main elf elfsz asckey = on_cpu (prepare_cpu elf elfsz asckey (new_cpu 2 base)) λ ready c.
      unless_null ready λ _. behind_loop (execute_loop host n w c) λ w' c'. returned (w', c')

  -- `main` of runtorture.c, up to its loop
  unfoldable pub torture_main : (ℕ → ℕ) → ℕ → Option AscKey → Main Torture
  unfolding new_cpu prepare_cpu execute
  torture_main elf elfsz asckey =
      on_cpu (prepare_cpu elf elfsz asckey (new_cpu 2 base))
        λ ready c. unless_null ready λ _. returned (execute n [] 0 c)

  -- `main` of runbench.c: the number that it prints
  unfoldable pub bench_main : (ℕ → ℕ) → ℕ → Option AscKey → List ℕ → Main ℕ
  unfolding new_cpu prepare_cpu mips_elf_find_symbol parse_params execute_loop read_time
  bench_main elf elfsz asckey tokens =
      on_cpu (prepare_cpu elf elfsz asckey (new_cpu 16 base)) λ ready c. unless_null ready λ _.
        on_cpu (mips_elf_find_symbol params_name c) λ params _. unless_null params λ s_params.
          on_cpu (mips_elf_find_symbol time_name c) λ time _. unless_null time λ s_time.
            on_cpu (st_size s_params c) λ params_size _.
              if not (params_size % 4 == 0) || params_size == 0
              then exits
              else on_cpu (st_size s_time c) λ time_size _.
                if not (time_size == 8)
                then exits
                else on_cpu (parse_params tokens s_params c) λ parsed c1. unless_null parsed λ _.
                  behind_loop (execute_loop host n w c1)
                    λ w' c2. on_cpu (read_time s_time c2) λ ticks _. returned ticks

  -- `main` of load-lvl1.c
  unfoldable pub lvl1_main : (ℕ → ℕ) → ℕ → (ℕ → ℕ) → ℕ → Main (W × MipsCpu)
  unfolding new_cpu mips_elf_load mips_elf_find_symbol install_l2 execute_loop
  lvl1_main l1elf l1sz l2elf l2sz =
      on_cpu (loaded (mips_elf_load l1elf l1sz (new_cpu 2 base))) λ ready c. unless_null ready λ _.
        on_cpu (mips_elf_find_symbol l2_elf_name c) λ elf_symbol _.
          on_cpu (mips_elf_find_symbol l2_elf_size_name c) λ size_symbol _.
            unless_null elf_symbol λ sl2_elf. unless_null size_symbol λ sl2_elf_size.
              on_cpu (st_size sl2_elf c) λ space _.
                if ltb space l2sz
                then exits
                else on_cpu (install_l2 sl2_elf sl2_elf_size l2elf l2sz c)
                    λ _ c1. behind_loop (execute_loop host n w c1) λ w' c2. returned (w', c2)
