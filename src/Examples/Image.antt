-- ===== src/Examples/Image.antt =====
-- A small ELF image with one segment and the symbols `_gp` and `_end`, loaded by vm/elfload.c.
use cspim.Base.{
  zero, suc, ◌&&◌, ℕ, ◌≡◌, ltb, refl, arith, List, [], ◌∷◌, get_or, IsByte, Bool, true,
}
use cspim.Cpu.{MipsCpu, Outcome, done, mips_init_cpu}
use cspim.Memory.{mips_identity_peek_uw, mips_identity_poke_uw}
use cspim.Memory.Access.{identity-IsAccess}
use cspim.Execute.Effect.{IsWellFormed}
use cspim.Elf.{fail_if, null_check}
use cspim.Elf.Load.{in_program, mips_elf_load}
use cspim.Elf.Boot.{Started, given, mips_elf_load-Started}

abbrev pub image : List ℕ
image =
    127 ∷ 69 ∷ 76 ∷ 70 ∷ 1 ∷ 1 ∷ 0 ∷ 0 ∷ 0 ∷ 0 ∷ 0 ∷ 0 ∷ 0 ∷ 0 ∷ 0 ∷ 0 ∷ 2 ∷ 0 ∷ 8 ∷ 0 ∷ 1 ∷ 0 ∷ 0
    ∷ 0 ∷ 0 ∷ 16 ∷ 0 ∷ 0 ∷ 52 ∷ 0 ∷ 0 ∷ 0 ∷ 84 ∷ 0 ∷ 0 ∷ 0 ∷ 0 ∷ 0 ∷ 0 ∷ 0 ∷ 52 ∷ 0 ∷ 32 ∷ 0 ∷ 1 ∷ 0
    ∷ 40 ∷ 0 ∷ 2 ∷ 0 ∷ 1 ∷ 0 ∷ 1 ∷ 0 ∷ 0 ∷ 0 ∷ 224 ∷ 0 ∷ 0 ∷ 0 ∷ 0 ∷ 16 ∷ 0 ∷ 0 ∷ 0 ∷ 16 ∷ 0 ∷ 0 ∷ 4
    ∷ 0 ∷ 0 ∷ 0 ∷ 8 ∷ 0 ∷ 0 ∷ 0 ∷ 0 ∷ 0 ∷ 0 ∷ 0 ∷ 0 ∷ 0 ∷ 0 ∷ 0 ∷ 1 ∷ 0 ∷ 0 ∷ 0 ∷ 2 ∷ 0 ∷ 0 ∷ 0 ∷ 0
    ∷ 0 ∷ 0 ∷ 0 ∷ 0 ∷ 0 ∷ 0 ∷ 0 ∷ 192 ∷ 0 ∷ 0 ∷ 0 ∷ 32 ∷ 0 ∷ 0 ∷ 0 ∷ 1 ∷ 0 ∷ 0 ∷ 0 ∷ 0 ∷ 0 ∷ 0 ∷ 0
    ∷ 0 ∷ 0 ∷ 0 ∷ 0 ∷ 16 ∷ 0 ∷ 0 ∷ 0 ∷ 9 ∷ 0 ∷ 0 ∷ 0 ∷ 3 ∷ 0 ∷ 0 ∷ 0 ∷ 0 ∷ 0 ∷ 0 ∷ 0 ∷ 0 ∷ 0 ∷ 0 ∷ 0
    ∷ 164 ∷ 0 ∷ 0 ∷ 0 ∷ 28 ∷ 0 ∷ 0 ∷ 0 ∷ 0 ∷ 0 ∷ 0 ∷ 0 ∷ 0 ∷ 0 ∷ 0 ∷ 0 ∷ 0 ∷ 0 ∷ 0 ∷ 0 ∷ 0 ∷ 0 ∷ 0
    ∷ 0 ∷ 0 ∷ 46 ∷ 115 ∷ 121 ∷ 109 ∷ 116 ∷ 97 ∷ 98 ∷ 0 ∷ 46 ∷ 115 ∷ 116 ∷ 114 ∷ 116 ∷ 97 ∷ 98 ∷ 0
    ∷ 95 ∷ 103 ∷ 112 ∷ 0 ∷ 95 ∷ 101 ∷ 110 ∷ 100 ∷ 0 ∷ 0 ∷ 0 ∷ 17 ∷ 0 ∷ 0 ∷ 0 ∷ 0 ∷ 17 ∷ 0 ∷ 0 ∷ 0
    ∷ 0 ∷ 0 ∷ 0 ∷ 16 ∷ 0 ∷ 241 ∷ 255 ∷ 21 ∷ 0 ∷ 0 ∷ 0 ∷ 8 ∷ 16 ∷ 0 ∷ 0 ∷ 0 ∷ 0 ∷ 0 ∷ 0 ∷ 16 ∷ 0
    ∷ 241 ∷ 255 ∷ 5 ∷ 0 ∷ 1 ∷ 36 ∷ []

abbrev pub image_byte : ℕ → ℕ
image_byte i = get_or image i 0

abbrev pub empty : MipsCpu
empty = mips_init_cpu mips_identity_peek_uw mips_identity_poke_uw (λ _. 0) 0x2000 0x100

abbrev all_small : List ℕ → Bool
all_small [] = true
all_small (x ∷ xs) = ltb x 256 && all_small xs

-- What the loader returns, and where the program starts.
abbrev start : Outcome ℕ → ℕ × ℕ
start (done r c) = (r, c.pc)
start _ = (1, 0)

starts : start (mips_elf_load image_byte 228 empty) ≡ (0, 0x1000)
unfolding mips_elf_load mips_init_cpu mips_identity_poke_uw fail_if null_check in_program
starts = refl

abbrev state_of : Outcome ℕ → MipsCpu
state_of (done r c) = c
state_of _ = empty

abbrev ready : MipsCpu
ready = state_of (mips_elf_load image_byte 228 empty)

image_loads : mips_elf_load image_byte 228 empty ≡ done 0 ready
unfolding mips_elf_load mips_init_cpu mips_identity_poke_uw fail_if null_check in_program
image_loads = refl

pub empty-IsWellFormed : IsWellFormed empty
unfolding mips_init_cpu
empty-IsWellFormed = record {
  safe = record {
    access = identity-IsAccess;
    bytes = λ j. omega arith;
    whole_words = refl;
    address_space = omega arith;
  };
  registers = record { words = λ i. omega arith; zero_register = refl };
  hi_word = omega arith;
  lo_word = omega arith;
  pc_word = omega arith;
  delay_slot_word = omega arith;
}

pub small : (xs : List ℕ) → all_small xs ≡ true → (j : ℕ) → IsByte (get_or xs j 0)
small [] h j = omega arith
small (x ∷ xs) h zero = ground arith
small (x ∷ xs) h (suc j) = small xs (ground arith) j

mips_elf_load-Started_example : Started (given image_byte 228 empty) ready
unfolding mips_init_cpu
mips_elf_load-Started_example =
    mips_elf_load-Started image_byte 228 empty-IsWellFormed (small image refl) (omega arith)
      (omega arith) image_loads
