-- ===== src/Syscalls/Guarded.antt =====
-- What every system call of vm/hosted/syscalls.c leaves of the state, and what it needs of the host.
use cspim.Base.{
  ℕ, ◌+◌, ◌<◌, ◌≤◌, ◌≡◌, ◌≢◌, ◌⊎◌, ◌∙◌, inl, inr, arith, IsWord, Option, none, some, List,
  Bool-cases,
}
use cspim.Cpu.{MipsCpu, set_ur, lowbase}
use cspim.Memory.{mips_peek_ub, mips_poke_ub}
use cspim.Memory.View.{accessible, guest_byte, mips_peek_ub-guest_byte}
use cspim.Memory.Store.{stored_byte, stored_byte-IsSafe, mips_poke_ub-stored}
use cspim.Memory.Checked.{word_of}
use cspim.Execute.Effect.{IsWellFormed, set_ur-IsRegisters}
use cspim.Execute.Safety.{IsForbidden, with_registers}
use cspim.Elf.Ensures.{Ensures, returns, jumps, AllOf, IsImage}
use cspim.Syscalls.{Host}

-- A state that a program may go on in, which has started in `c0`.
pub record Guarded (c0 c : MipsCpu) : Type 0 where
  pub well_formed : IsWellFormed c
  pub forbidden : (j : ℕ) → IsForbidden c0 j → c.base j ≡ c0.base j
  pub same_size : (c.memsz ≡ c0.memsz) × (c.stksz ≡ c0.stksz)
  pub brk_word : IsWord c.brk
  pub stdio : (j : ℕ) → j < 3 → c.fds j ≡ j
  pub same_image : (c.elf ≡ c0.elf) × (c.elfsz ≡ c0.elfsz)
  pub image : IsImage c

-- What the handlers need of the host: an `int` is a pattern of 32 bits.
pub record IsHost {W : Type 0} (host : Host W) : Type 0 where
  pub getchar-IsWord : (w : W) → IsWord (host.getchar w).0
  pub scan-IsWord : (line : List ℕ) → AllOf IsWord (host.scan_int line)
  pub close-IsWord : (fd : ℕ) (w : W) → IsWord (host.close fd w).0
  pub read-IsWord : (fd n : ℕ) (w : W) → IsWord (host.read fd n w).0.0
  pub write-IsWord : (fd : ℕ) (bytes : List ℕ) (w : W) → IsWord (host.write fd bytes w).0
  pub lseek-IsWord : (fd offset origin : ℕ) (w : W) → IsWord (host.lseek fd offset origin w).0

-- The result of a handler, if it has one, leaves such a state.
pub data Keeps {W : Type 0} (c0 : MipsCpu) : Option (ℕ × W × MipsCpu) → Type 0 where
  keeps : (err : ℕ) (w : W) (c : MipsCpu) → Guarded c0 c → Keeps c0 (some (err, w, c))
  stuck : Keeps c0 none

module _ {c0 c : MipsCpu} (g : Guarded c0 c) where
  pub set_ur-Guarded : (r v : ℕ) → r ≢ 0 → IsWord v → Guarded c0 (set_ur r v c)
  set_ur-Guarded r v ne h =
      let wf = g.well_formed in
      record {
        well_formed =
            with_registers (set_ur r v c).ur c.hi c.lo c.pc c.delay_slot wf.safe
              (set_ur-IsRegisters r v wf.registers ne h)
              (wf.hi_word, wf.lo_word, wf.pc_word, wf.delay_slot_word);
        forbidden = g.forbidden;
        same_size = g.same_size;
        brk_word = g.brk_word;
        stdio = g.stdio;
        same_image = g.same_image;
        image = g.image;
      }

  apart : (a j : ℕ) → lowbase ≤ a → a + 4 ≤ c.memsz → IsForbidden c j → (j < a) ⊎ (a + 4 ≤ j)
  apart a j low high f = grind arith

  -- A byte is put into the part of the block that the program may access.
  stored_byte-Guarded :
      (addr v : ℕ)
      → IsWord addr
      → lowbase ≤ addr
      → addr < c.memsz
      → Guarded c0 (stored_byte c addr v)
  stored_byte-Guarded addr v h low high =
      let wf = g.well_formed in
      record {
        well_formed = record {
          safe = stored_byte-IsSafe wf.safe addr v h;
          registers = wf.registers;
          hi_word = wf.hi_word;
          lo_word = wf.lo_word;
          pc_word = wf.pc_word;
          delay_slot_word = wf.delay_slot_word;
        };
        forbidden = λ j f.
            wf.safe.access.poke_outside c.base (word_of addr) _ j (
              apart (word_of addr) j (omega (arith, low)) (omega (arith, high, wf.safe.whole_words))
                (rw g.same_size.0 f))
            ∙ g.forbidden j f;
        same_size = g.same_size;
        brk_word = g.brk_word;
        stdio = g.stdio;
        same_image = g.same_image;
        image = g.image;
      }

  pub mips_poke_ub-Guarded :
      (addr v : ℕ) → IsWord addr → Ensures (λ _. Guarded c0) (Guarded c0) (mips_poke_ub addr v c)
  mips_poke_ub-Guarded addr v h =
      rw (mips_poke_ub-stored g.well_formed.safe addr v h)
        (elim (Bool-cases (accessible c addr 1)) [
          | inl e ↦ rw e (returns tt _ (stored_byte-Guarded addr v h (ground arith) (ground arith)))
          | inr e ↦ rw e (jumps _ c g)
        ])

  pub mips_peek_ub-Guarded :
      (addr : ℕ) → IsWord addr → Ensures (λ _. Guarded c0) (Guarded c0) (mips_peek_ub addr c)
  mips_peek_ub-Guarded addr h =
      rw (mips_peek_ub-guest_byte c addr g.well_formed.safe h)
        (elim (Bool-cases (accessible c addr 1)) [
          | inl e ↦ rw e (returns (guest_byte c addr) c g)
          | inr e ↦ rw e (jumps _ c g)
        ])
