-- ===== src/Syscalls/Descriptors.antt =====
-- The system calls of vm/hosted/syscalls.c on files leave a state that the program may go on in; the
-- first three descriptors stay those of the host.
use cspim.Base.{
  ℕ, zero, suc, ◌+◌, ◌-◌, ◌<◌, ◌≤◌, inl, inr, arith, IsWord, List, [], ◌∷◌, Bool-cases, u32, leb,
  ◌==◌, length,
}
use cspim.Cpu.{MipsCpu, minus_one, max_fds, update}
use cspim.Memory.{mips_copyin, mips_copyout, copyin_loop, copyout_loop}
use cspim.Elf.Ensures.{Ensures, returns, AllOf, and_then-Ensures}
use cspim.Syscalls.{}
use cspim.Syscalls.Files.{fd_slot_loop}
use cspim.Syscalls.Guarded.{Guarded, mips_poke_ub-Guarded, mips_peek_ub-Guarded}

-- A slot behind those of the standard streams.
abbrev pub IsSlot : ℕ → Type 0
IsSlot fd = (3 ≤ fd) × (fd < max_fds)

module _ {c0 c : MipsCpu} (g : Guarded c0 c) where
  pub fd_slot_loop-IsSlot : (n : ℕ) → n ≤ max_fds → AllOf IsSlot (fd_slot_loop n c)
  unfolding fd_slot_loop
  fd_slot_loop-IsSlot zero h = tt
  fd_slot_loop-IsSlot (suc n) h = elim (Bool-cases (c.fds (max_fds - suc n) == minus_one)) [
    | inl e ↦ rw e (ground (arith, g.stdio (max_fds - suc n)), omega arith)
    | inr e ↦ rw e (fd_slot_loop-IsSlot n (omega arith))
  ]

  -- Another value in a slot that is not one of the standard streams.
  pub fds-Guarded : (fd v : ℕ) → 3 ≤ fd → Guarded c0 (record c { fds = update c.fds fd v })
  fds-Guarded fd v h =
      let wf = g.well_formed in
      record {
        well_formed = record {
          safe = record {
            access = wf.safe.access;
            bytes = wf.safe.bytes;
            whole_words = wf.safe.whole_words;
            address_space = wf.safe.address_space;
          };
          registers = wf.registers;
          hi_word = wf.hi_word;
          lo_word = wf.lo_word;
          pc_word = wf.pc_word;
          delay_slot_word = wf.delay_slot_word;
        };
        forbidden = g.forbidden;
        same_size = g.same_size;
        brk_word = g.brk_word;
        stdio = λ j l. ground (arith, g.stdio j l);
        same_image = g.same_image;
        image = g.image;
      }

module _ {c0 : MipsCpu} where
  copyout_loop-Guarded :
      (src : List ℕ) (dst : ℕ) {c : MipsCpu}
      → IsWord dst
      → Guarded c0 c
      → Ensures (λ _. Guarded c0) (Guarded c0) (copyout_loop dst src c)
  unfolding copyout_loop
  copyout_loop-Guarded [] dst {c} h g = returns tt c g
  copyout_loop-Guarded (b ∷ src) dst h g =
      and_then-Ensures _ _ (mips_poke_ub-Guarded g dst b h)
        λ _ c' g'. copyout_loop-Guarded src (u32 (dst + 1)) (omega arith) g'

  pub mips_copyout-Guarded :
      (dst : ℕ) (src : List ℕ) {c : MipsCpu}
      → IsWord dst
      → Guarded c0 c
      → Ensures (λ _. Guarded c0) (Guarded c0) (mips_copyout dst src c)
  unfolding mips_copyout
  mips_copyout-Guarded dst src {c} h g = elim (Bool-cases (leb c.memsz (u32 (dst + length src)))) [
    | inl e ↦ rw e (returns minus_one c g)
    | inr e ↦
        rw e (and_then-Ensures _ _ (copyout_loop-Guarded src dst h g) λ _ c' g'. returns 0 c' g')
  ]

  copyin_loop-Guarded :
      (n src : ℕ) {c : MipsCpu}
      → IsWord src
      → Guarded c0 c
      → Ensures (λ _. Guarded c0) (Guarded c0) (copyin_loop src n c)
  unfolding copyin_loop
  copyin_loop-Guarded zero src {c} h g = returns [] c g
  copyin_loop-Guarded (suc n) src h g =
      and_then-Ensures _ _ (mips_peek_ub-Guarded g src h) λ b c' g'.
        and_then-Ensures _ _ (copyin_loop-Guarded n (u32 (src + 1)) (omega arith) g')
          λ bs c2 g2. returns (b ∷ bs) c2 g2

  pub mips_copyin-Guarded :
      (src n : ℕ) {c : MipsCpu}
      → IsWord src
      → Guarded c0 c
      → Ensures (λ _. Guarded c0) (Guarded c0) (mips_copyin src n c)
  unfolding mips_copyin
  mips_copyin-Guarded src n {c} h g = elim (Bool-cases (leb c.memsz (u32 (src + n)))) [
    | inl e ↦ rw e (returns (minus_one, []) c g)
    | inr e ↦
        rw e
          (and_then-Ensures _ _ (copyin_loop-Guarded n src h g) λ bs c' g'. returns (0, bs) c' g')
  ]
