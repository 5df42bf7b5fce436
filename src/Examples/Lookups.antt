-- ===== src/Examples/Lookups.antt =====
-- The theorems about the nearest symbol and about division, at small inputs.
use cspim.Base.{◌/◌, ◌≡◌, ◌<◌, refl, arith, some}
use cspim.Base.Int.{◌+ℤ◌, ◌*ℤ◌}
use cspim.Cpu.{MipsCpu, mips_init_cpu}
use cspim.Arith.{sword, magnitude, divide_signed}
use cspim.Arith.Division.{divide_signed_law}
use cspim.Elf.Ensures.{Looks, AllOf}
use cspim.Elf.Boot.{given}
use cspim.Elf.Symbols.{mips_elf_find_address}
use cspim.Elf.Distance.{IsNearest, mips_elf_find_address-IsNearest}
use cspim.Examples.Image.{image, image_byte, empty, small}

-- The image with its table of two symbols.
abbrev with_table : MipsCpu
with_table = record (given image_byte 228 empty) { shsymtab = some 84 }

mips_elf_find_address-IsNearest_example :
    Looks with_table
      (AllOf (IsNearest with_table 84 0x1004 (32 / 16)))
      (mips_elf_find_address 0x1004 with_table)
unfolding mips_init_cpu
mips_elf_find_address-IsNearest_example =
    mips_elf_find_address-IsNearest 84 0x1004 (small image refl) refl refl refl

-- -7 divided by 2
divide_signed_law_example :
    (sword (divide_signed 0xffff_fff9 2).0 *ℤ sword 2 +ℤ sword (divide_signed 0xffff_fff9 2).1
      ≡ sword 0xffff_fff9)
    × (magnitude (sword (divide_signed 0xffff_fff9 2).1) < magnitude (sword 2))
divide_signed_law_example =
    divide_signed_law 0xffff_fff9 2 (omega arith) (omega arith) (λ e. omega (arith, e)) refl
