-- ===== src/Elf.antt =====
-- vm/elf.h and the lookups of vm/elfload.c: the ELF image as bytes, the fields of its headers, and
-- the functions that find headers, symbols and strings in it.
pub mod Segments
pub mod Symbols
pub mod Load
pub mod Ensures
pub mod Lookup
pub mod Loading
pub mod Boot
pub mod Copying
pub mod Nearest
pub mod Distance
pub mod Contents
pub mod Placed
pub mod Segment
use cspim.Base.{
  ℕ, zero, suc, ◌+◌, ◌*◌, ◌^◌, if◌then◌else◌, ltb, leb, ◌==◌, ◌||◌, not, Bool, true, false, Option,
  none, some, u32, List, [], ◌∷◌,
}
use cspim.Cpu.{MipsCpu, Command, done, undefined, minus_one, ◌>>=◌, ◌>>◌}
use cspim.Memory.{pure}

-- A read of the image. C does not define one that goes beyond the image.
abbrev pub read_byte : ℕ → Command ℕ
read_byte off c = if ltb off c.elfsz then done (c.elf off) c else undefined

abbrev pub read_half : ℕ → Command ℕ
read_half off c =
    if ltb c.elfsz (off + 2) then undefined else done (c.elf off + c.elf (off + 1) * 2 ^ 8) c

abbrev pub read_word : ℕ → Command ℕ
read_word off c =
    if ltb c.elfsz (off + 4)
    then undefined
    else done
        (c.elf off + c.elf (off + 1) * 2 ^ 8 + c.elf (off + 2) * 2 ^ 16 + c.elf (off + 3) * 2 ^ 24)
        c

-- Elf32_Ehdr: the fields that the loader reads, at the start of the image.
abbrev pub e_ident : ℕ → Command ℕ
e_ident i = read_byte i

abbrev pub e_type : Command ℕ
e_type = read_half 16

abbrev pub e_machine : Command ℕ
e_machine = read_half 18

abbrev pub e_entry : Command ℕ
e_entry = read_word 24

abbrev pub e_phoff : Command ℕ
e_phoff = read_word 28

abbrev pub e_shoff : Command ℕ
e_shoff = read_word 32

abbrev pub e_ehsize : Command ℕ
e_ehsize = read_half 40

abbrev pub e_phentsize : Command ℕ
e_phentsize = read_half 42

abbrev pub e_phnum : Command ℕ
e_phnum = read_half 44

abbrev pub e_shentsize : Command ℕ
e_shentsize = read_half 46

abbrev pub e_shnum : Command ℕ
e_shnum = read_half 48

abbrev pub e_shstrndx : Command ℕ
e_shstrndx = read_half 50

-- sizeof(Elf32_Ehdr)
abbrev pub ehdr_size : ℕ
ehdr_size = 52

-- Elf32_Phdr, behind a pointer into the image.
abbrev pub p_type : ℕ → Command ℕ
p_type ph = read_word ph

abbrev pub p_offset : ℕ → Command ℕ
p_offset ph = read_word (ph + 4)

abbrev pub p_vaddr : ℕ → Command ℕ
p_vaddr ph = read_word (ph + 8)

abbrev pub p_filesz : ℕ → Command ℕ
p_filesz ph = read_word (ph + 16)

abbrev pub p_memsz : ℕ → Command ℕ
p_memsz ph = read_word (ph + 20)

-- Elf32_Shdr
abbrev pub sh_name : ℕ → Command ℕ
sh_name sh = read_word sh

abbrev pub sh_type : ℕ → Command ℕ
sh_type sh = read_word (sh + 4)

abbrev pub sh_offset : ℕ → Command ℕ
sh_offset sh = read_word (sh + 16)

abbrev pub sh_size : ℕ → Command ℕ
sh_size sh = read_word (sh + 20)

abbrev pub sh_link : ℕ → Command ℕ
sh_link sh = read_word (sh + 24)

abbrev pub sh_entsize : ℕ → Command ℕ
sh_entsize sh = read_word (sh + 36)

-- Elf32_Sym
abbrev pub st_name : ℕ → Command ℕ
st_name sym = read_word sym

abbrev pub st_value : ℕ → Command ℕ
st_value sym = read_word (sym + 4)

abbrev pub st_info : ℕ → Command ℕ
st_info sym = read_byte (sym + 12)

abbrev pub st_shndx : ℕ → Command ℕ
st_shndx sym = read_half (sym + 14)

-- ET_EXEC and EM_MIPS; PT_NULL and PT_LOAD; SHT_SYMTAB and SHT_STRTAB; SHN_ABS
abbrev pub et_exec : ℕ
et_exec = 2

abbrev pub em_mips : ℕ
em_mips = 8

abbrev pub pt_null : ℕ
pt_null = 0

abbrev pub pt_load : ℕ
pt_load = 1

abbrev pub sht_symtab : ℕ
sht_symtab = 2

abbrev pub sht_strtab : ℕ
sht_strtab = 3

abbrev pub shn_abs : ℕ
shn_abs = 0xfff1

-- The product of two halves is an `int`, whose overflow C does not define.
abbrev pub product_of_halves : ℕ → ℕ → Command ℕ
product_of_halves a b c = if ltb (a * b) (2 ^ 31) then done (a * b) c else undefined

-- `&&` and `||` read their right operand only when they need it.
abbrev pub or_else : Bool → Command Bool → Command Bool
or_else true m = pure true
or_else false m = m

abbrev pub differs : Command ℕ → ℕ → Command Bool
differs m n = do v ← m; pure (not (v == n))

-- One `if(...) return -1;`, and what follows it.
unfoldable pub fail_if : {A : Type 0} → Bool → A → Command A → Command A
fail_if true r m = pure r
fail_if false r m = m

-- One `if(!p) return r;` for a pointer, and what follows it.
unfoldable pub null_check : {A B : Type 0} → Option A → B → (A → Command B) → Command B
null_check none r k = pure r
null_check (some p) r k = k p

-- The size checks of `check_eh_limits`.
unfoldable pub check_tables : ℕ → Command ℕ
check_tables sz = do
  phoff ← e_phoff
  phnum ← e_phnum
  phentsize ← e_phentsize
  phsize ← product_of_halves phnum phentsize
  fail_if (ltb sz (u32 (phoff + phsize))) minus_one (do
    shoff ← e_shoff
    shnum ← e_shnum
    shentsize ← e_shentsize
    shsize ← product_of_halves shnum shentsize
    shstrndx ← e_shstrndx
    pure (if ltb sz (u32 (shoff + shsize)) || leb shnum shstrndx then minus_one else 0))

unfoldable pub check_eh_limits : ℕ → Command ℕ
unfolding check_tables
check_eh_limits sz = do
  wrong_size ← differs e_ehsize ehdr_size
  fail_if wrong_size minus_one (do
    wrong_magic ← (do
      i0 ← differs (e_ident 0) 0x7f
      i1 ← or_else i0 (differs (e_ident 1) 0x45)
      i2 ← or_else i1 (differs (e_ident 2) 0x4c)
      or_else i2 (differs (e_ident 3) 0x46))
    fail_if wrong_magic minus_one (do
      wrong_class ← (do i4 ← differs (e_ident 4) 1; or_else i4 (differs (e_ident 5) 1))
      fail_if wrong_class minus_one (do
        wrong_type ← (do t ← differs e_type et_exec; or_else t (differs e_machine em_mips))
        fail_if wrong_type minus_one (check_tables sz))))

unfoldable pub get_phdr : ℕ → Command (Option ℕ)
get_phdr ndx c =
    (do
      phoff ← e_phoff
      phentsize ← e_phentsize
      let off = u32 (phoff + ndx * phentsize)
      phnum ← e_phnum
      pure (if leb phnum ndx || leb c.elfsz off then none else some off))
      c

unfoldable pub get_shdr : ℕ → Command (Option ℕ)
get_shdr ndx c =
    (do
      shoff ← e_shoff
      shentsize ← e_shentsize
      let off = u32 (shoff + ndx * shentsize)
      shnum ← e_shnum
      pure (if leb shnum ndx || leb c.elfsz off then none else some off))
      c
