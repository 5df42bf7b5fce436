-- ===== src/Elf/Nearest.antt =====
-- The lookups of vm/elfload.c that the messages of the host programs use only look at the state.
use cspim.Base.{ℕ, zero, suc, ◌+◌, ◌==◌, Option}
use cspim.Cpu.{MipsCpu}
use cspim.Memory.{pure}
use cspim.Elf.Symbols.{find_address_loop, mips_elf_find_address, mips_elf_get_symname, nearer}
use cspim.Elf.Ensures.{
  IsImage, OnlyLooks, looks_at, and_then-Looks, fail_if-Looks, null_check-Looks, follow-OnlyLooks,
  divide_sizes-OnlyLooks, read_byte-Looks, read_word-Looks,
}
use cspim.Elf.Lookup.{get_sym-OnlyLooks, get_string-OnlyLooks, chosen}

module _ (c : MipsCpu) (image : IsImage c) where
  find_address_loop-OnlyLooks :
      (shsymtab addr n i : ℕ) (best : ℕ × Option ℕ)
      → OnlyLooks c (find_address_loop shsymtab addr n i best c)
  unfolding find_address_loop
  find_address_loop-OnlyLooks shsymtab addr zero i (min, ret) = looks_at ret
  find_address_loop-OnlyLooks shsymtab addr (suc n) i best =
      and_then-Looks _ _ (get_sym-OnlyLooks c image shsymtab i) λ found _.
        null_check-Looks _ _ _ tt λ sym.
          and_then-Looks _ _ (read_byte-Looks c image (sym + 12)) λ info _.
            and_then-Looks _ _ (read_word-Looks c image (sym + 4)) λ value _.
              let best' = nearer addr sym info value best in
              chosen c image (best'.0 == 0) (pure best'.1)
                (find_address_loop shsymtab addr n (i + 1) best') (looks_at best'.1)
                (find_address_loop-OnlyLooks shsymtab addr n (i + 1) best')

  pub mips_elf_find_address-OnlyLooks : (addr : ℕ) → OnlyLooks c (mips_elf_find_address addr c)
  unfolding mips_elf_find_address
  mips_elf_find_address-OnlyLooks addr =
      and_then-Looks _ _ (follow-OnlyLooks c c.shsymtab) λ shsymtab _.
        and_then-Looks _ _ (read_word-Looks c image (shsymtab + 20)) λ size _.
          and_then-Looks _ _ (read_word-Looks c image (shsymtab + 36)) λ entsize _.
            and_then-Looks _ _ (divide_sizes-OnlyLooks c size entsize) λ n _.
              and_then-Looks _ _ (read_word-Looks c image (shsymtab + 16))
                λ offset _. fail_if-Looks _ _ _ tt (find_address_loop-OnlyLooks shsymtab addr n 0 _)

  pub mips_elf_get_symname-OnlyLooks : (sym : ℕ) → OnlyLooks c (mips_elf_get_symname sym c)
  unfolding mips_elf_get_symname
  mips_elf_get_symname-OnlyLooks sym =
      and_then-Looks _ _ (follow-OnlyLooks c c.shsymstr) λ shsymstr _.
        and_then-Looks _ _ (read_word-Looks c image sym)
          λ name _. get_string-OnlyLooks c image shsymstr name
