-- ===== src/Elf/Lookup.antt =====
-- The lookups of vm/elfload.c only read the state.
use cspim.Base.{
  ℕ, zero, suc, ◌+◌, ◌-◌, ◌==◌, if◌then◌else◌, Bool, true, false, List, [], ◌∷◌, none, some,
}
use cspim.Cpu.{MipsCpu, Command}
use cspim.Memory.{pure}
use cspim.Elf.{check_tables, check_eh_limits, get_phdr, get_shdr}
use cspim.Elf.Symbols.{
  scan_loop, get_string, get_sym, sequal, symbol_matches, find_symbol_loop, mips_elf_find_symbol,
}
use cspim.Elf.Ensures.{
  OnlyLooks, looks_at, and_then-Looks, fail_if-Looks, null_check-Looks, product_of_halves-OnlyLooks,
  follow-OnlyLooks, divide_sizes-OnlyLooks, or_else-OnlyLooks, differs_byte, differs_half, IsImage,
  read_byte-Looks, read_half-Looks, read_word-Looks,
}

module _ (c : MipsCpu) (image : IsImage c) where
  pub chosen :
      {A : Type 0} (b : Bool) (m m' : Command A)
      → OnlyLooks c (m c)
      → OnlyLooks c (m' c)
      → OnlyLooks c ((if b then m else m') c)
  chosen true m m' h g = h
  chosen false m m' h g = g

  check_tables-OnlyLooks : (sz : ℕ) → OnlyLooks c (check_tables sz c)
  unfolding check_tables
  check_tables-OnlyLooks sz = and_then-Looks _ _ (read_word-Looks c image 28) λ phoff _.
      and_then-Looks _ _ (read_half-Looks c image 44) λ phnum _.
        and_then-Looks _ _ (read_half-Looks c image 42) λ phentsize _.
          and_then-Looks _ _ (product_of_halves-OnlyLooks c phnum phentsize) λ phsize _.
            fail_if-Looks _ _ _ tt (
              and_then-Looks _ _ (read_word-Looks c image 32) λ shoff _.
                and_then-Looks _ _ (read_half-Looks c image 48) λ shnum _.
                  and_then-Looks _ _ (read_half-Looks c image 46) λ shentsize _.
                    and_then-Looks _ _ (product_of_halves-OnlyLooks c shnum shentsize) λ shsize _.
                      and_then-Looks _ _ (read_half-Looks c image 50) λ shstrndx _. looks_at _)

  pub check_eh_limits-OnlyLooks : (sz : ℕ) → OnlyLooks c (check_eh_limits sz c)
  unfolding check_eh_limits
  check_eh_limits-OnlyLooks sz = and_then-Looks _ _ (differs_half c image 40 52) λ b _.
      fail_if-Looks b _ _ tt (
        and_then-Looks _ _
          (and_then-Looks _ _ (differs_byte c image 0 0x7f) λ i0 _.
            and_then-Looks _ _ (or_else-OnlyLooks c i0 _ (differs_byte c image 1 0x45)) λ i1 _.
              and_then-Looks _ _ (or_else-OnlyLooks c i1 _ (differs_byte c image 2 0x4c))
                λ i2 _. or_else-OnlyLooks c i2 _ (differs_byte c image 3 0x46))
          λ b _. fail_if-Looks b _ _ tt (
            and_then-Looks _ _
              (and_then-Looks _ _ (differs_byte c image 4 1)
                λ i _. or_else-OnlyLooks c i _ (differs_byte c image 5 1))
              λ b _. fail_if-Looks b _ _ tt (
                and_then-Looks _ _
                  (and_then-Looks _ _ (differs_half c image 16 2)
                    λ t _. or_else-OnlyLooks c t _ (differs_half c image 18 8))
                  λ b _. fail_if-Looks b _ _ tt (check_tables-OnlyLooks sz))))

  pub get_phdr-OnlyLooks : (ndx : ℕ) → OnlyLooks c (get_phdr ndx c)
  unfolding get_phdr
  get_phdr-OnlyLooks ndx = and_then-Looks _ _ (read_word-Looks c image 28) λ phoff _.
      and_then-Looks _ _ (read_half-Looks c image 42)
        λ phentsize _. and_then-Looks _ _ (read_half-Looks c image 44) λ phnum _. looks_at _

  pub get_shdr-OnlyLooks : (ndx : ℕ) → OnlyLooks c (get_shdr ndx c)
  unfolding get_shdr
  get_shdr-OnlyLooks ndx = and_then-Looks _ _ (read_word-Looks c image 32) λ shoff _.
      and_then-Looks _ _ (read_half-Looks c image 46)
        λ shentsize _. and_then-Looks _ _ (read_half-Looks c image 48) λ shnum _. looks_at _

  scan_loop-OnlyLooks : (n at : ℕ) → OnlyLooks c (scan_loop n at c)
  unfolding scan_loop
  scan_loop-OnlyLooks zero at = looks_at false
  scan_loop-OnlyLooks (suc n) at = and_then-Looks _ _ (read_byte-Looks c image at) λ b _.
      chosen (b == 0) (pure true) (scan_loop n (at + 1)) (looks_at true)
        (scan_loop-OnlyLooks n (at + 1))

  pub get_string-OnlyLooks : (sh ndx : ℕ) → OnlyLooks c (get_string sh ndx c)
  unfolding get_string
  get_string-OnlyLooks sh ndx = and_then-Looks _ _ (read_word-Looks c image (sh + 16)) λ off _.
      and_then-Looks _ _ (read_word-Looks c image (sh + 4)) λ type _. fail_if-Looks _ _ _ tt (
        and_then-Looks _ _ (read_word-Looks c image (sh + 20)) λ size _. fail_if-Looks _ _ _ tt (
          and_then-Looks _ _ (scan_loop-OnlyLooks (size - ndx) (off + ndx))
            λ terminated _. looks_at _))

  pub get_sym-OnlyLooks : (sh ndx : ℕ) → OnlyLooks c (get_sym sh ndx c)
  unfolding get_sym
  get_sym-OnlyLooks sh ndx = and_then-Looks _ _ (read_word-Looks c image (sh + 36)) λ entsize _.
      and_then-Looks _ _ (read_word-Looks c image (sh + 16)) λ offset _.
        and_then-Looks _ _ (read_word-Looks c image (sh + 4)) λ type _.
          fail_if-Looks _ _ _ tt
            (and_then-Looks _ _ (read_word-Looks c image (sh + 20)) λ size _. looks_at _)

  pub sequal-OnlyLooks : (name : List ℕ) (s : ℕ) → OnlyLooks c (sequal name s c)
  unfolding sequal
  sequal-OnlyLooks [] s = and_then-Looks _ _ (read_byte-Looks c image s) λ b _. looks_at _
  sequal-OnlyLooks (ch ∷ name) s = and_then-Looks _ _ (read_byte-Looks c image s) λ b _.
      chosen (ch == b) (sequal name (s + 1)) (pure false) (sequal-OnlyLooks name (s + 1))
        (looks_at false)

  symbol_matches-OnlyLooks : (name : List ℕ) (sym : ℕ) → OnlyLooks c (symbol_matches name sym c)
  unfolding symbol_matches
  symbol_matches-OnlyLooks name sym =
      and_then-Looks _ _ (read_byte-Looks c image (sym + 12)) λ info _. fail_if-Looks _ _ _ tt (
        and_then-Looks _ _ (follow-OnlyLooks c c.shsymstr) λ shsymstr _.
          and_then-Looks _ _ (read_word-Looks c image sym) λ name_at _.
            and_then-Looks _ _ (get_string-OnlyLooks shsymstr name_at) λ symname _.
              null_check-Looks _ _ _ tt
                λ s. and_then-Looks _ _ (sequal-OnlyLooks name s) λ same _. looks_at _)

  find_symbol_loop-OnlyLooks :
      (shsymtab : ℕ) (name : List ℕ) (n i : ℕ) → OnlyLooks c (find_symbol_loop shsymtab name n i c)
  unfolding find_symbol_loop
  find_symbol_loop-OnlyLooks shsymtab name zero i = looks_at none
  find_symbol_loop-OnlyLooks shsymtab name (suc n) i =
      and_then-Looks _ _ (get_sym-OnlyLooks shsymtab i) λ found _. null_check-Looks _ _ _ tt λ sym.
        and_then-Looks _ _ (symbol_matches-OnlyLooks name sym) λ matches _.
          null_check-Looks _ _ _ tt λ same.
            chosen same (pure (some sym)) (find_symbol_loop shsymtab name n (i + 1)) (looks_at _)
              (find_symbol_loop-OnlyLooks shsymtab name n (i + 1))

  pub mips_elf_find_symbol-OnlyLooks : (name : List ℕ) → OnlyLooks c (mips_elf_find_symbol name c)
  unfolding mips_elf_find_symbol
  mips_elf_find_symbol-OnlyLooks name =
      and_then-Looks _ _ (follow-OnlyLooks c c.shsymtab) λ shsymtab _.
        and_then-Looks _ _ (read_word-Looks c image (shsymtab + 20)) λ size _.
          and_then-Looks _ _ (read_word-Looks c image (shsymtab + 36)) λ entsize _.
            and_then-Looks _ _ (divide_sizes-OnlyLooks c size entsize) λ n _.
              and_then-Looks _ _ (read_word-Looks c image (shsymtab + 16))
                λ offset _. fail_if-Looks _ _ _ tt (find_symbol_loop-OnlyLooks shsymtab name n 0)
