-- ===== src/Elf/Load.antt =====
-- `get_symtab` and `mips_elf_load` of vm/elfload.c.
use cspim.Base.{
  ℕ, zero, suc, ◌+◌, ◌-◌, ◌%◌, ◌^◌, if◌then◌else◌, ltb, leb, ◌==◌, ◌||◌, not, Bool, true, false,
  Option, none, some, List, [], ◌∷◌,
}
use cspim.Cpu.{MipsCpu, Command, done, minus_one, lowbase, set_ur, ◌>>=◌, ◌>>◌}
use cspim.Memory.{pure}
use cspim.Elf.{
  e_entry, e_shnum, e_shstrndx, sh_name, sh_type, sh_link, st_value, st_shndx, sht_symtab,
  sht_strtab, shn_abs, fail_if, null_check, get_shdr, check_eh_limits,
}
use cspim.Elf.Segments.{sub64, load_segments}
use cspim.Elf.Symbols.{get_string, sequal, mips_elf_find_symbol}

-- "_gp", "_end", ".symtab" and ".strtab"
abbrev pub gp_name : List ℕ
gp_name = 0x5f ∷ 0x67 ∷ 0x70 ∷ []

abbrev pub end_name : List ℕ
end_name = 0x5f ∷ 0x65 ∷ 0x6e ∷ 0x64 ∷ []

abbrev pub symtab_name : List ℕ
symtab_name = 0x2e ∷ 0x73 ∷ 0x79 ∷ 0x6d ∷ 0x74 ∷ 0x61 ∷ 0x62 ∷ []

abbrev pub strtab_name : List ℕ
strtab_name = 0x2e ∷ 0x73 ∷ 0x74 ∷ 0x72 ∷ 0x74 ∷ 0x61 ∷ 0x62 ∷ []

abbrev pub set_shsymtab : Option ℕ → Command (Unit {0})
set_shsymtab p c = done tt (record c { shsymtab = p })

abbrev pub set_shsymstr : Option ℕ → Command (Unit {0})
set_shsymstr p c = done tt (record c { shsymstr = p })

abbrev is_some : Option ℕ → Bool
is_some none = false
is_some (some p) = true

-- What the loop of `get_symtab` does with the section `sh` of index `i`: the section header of the
-- section names, or `none` when the loop returns -1.
unfoldable pub note_section : ℕ → ℕ → Option ℕ → Command (Option (Option ℕ))
note_section i sh shshstr c =
    (do
      shstrndx ← e_shstrndx
      fail_if (i == shstrndx) (some (some sh)) (do
        type ← sh_type sh
        fail_if (not (type == sht_symtab)) (some shshstr)
            (fail_if (is_some c.shsymtab) none (do set_shsymtab (some sh); pure (some shshstr)))))
      c

-- The loop, over `n` sections from the index `i` on.
unfoldable pub sections_loop : ℕ → ℕ → Option ℕ → Command (Option (Option ℕ))
unfolding get_shdr note_section
sections_loop zero i shshstr = pure (some shshstr)
sections_loop (suc n) i shshstr = do
  found ← get_shdr i
  null_check found none λ sh. (do
    noted ← note_section i sh shshstr
    null_check noted none λ shshstr'. sections_loop n (i + 1) shshstr')

-- Whether the name of a section is the given string.
abbrev pub is_named : Option ℕ → List ℕ → Command Bool
is_named none name = pure false
is_named (some s) name = sequal name s

-- The checks of `get_symtab` on the names of the two sections.
unfoldable pub check_sections : ℕ → ℕ → Command ℕ
unfolding get_string sequal get_shdr
check_sections shsymtab shshstr = do
  name ← sh_name shsymtab
  secname ← get_string shshstr name
  link ← sh_link shsymtab
  shnum ← e_shnum
  fail_if (leb shnum link) minus_one (do
    named ← is_named secname symtab_name
    fail_if (not named) minus_one (do
      found ← get_shdr link
      set_shsymstr found
      null_check found minus_one λ shsymstr. (do
        name' ← sh_name shsymstr
        secname' ← get_string shshstr name'
        type ← sh_type shsymstr
        fail_if (not (type == sht_strtab)) minus_one
            (do named' ← is_named secname' strtab_name; pure (if named' then 0 else minus_one)))))

unfoldable pub get_symtab : Command ℕ
unfolding sections_loop check_sections
get_symtab = do
  set_shsymtab none
  set_shsymstr none
  shnum ← e_shnum
  result ← sections_loop shnum 0 none
  null_check result minus_one λ shshstr c.
      null_check c.shsymtab minus_one
        (λ shsymtab. null_check shshstr minus_one (check_sections shsymtab)) c

-- Whether an address lies in the part of the memory that the loader may fill.
unfoldable pub in_program : ℕ → Command (Option ℕ)
in_program value c =
    done (if leb (sub64 c.memsz c.stksz) value || ltb value lowbase then none else some value) c

-- The value of an absolute symbol that lies in the program's part of the memory, or `none` where
-- `mips_elf_load` returns -1.
unfoldable pub program_symbol : List ℕ → Command (Option ℕ)
unfolding mips_elf_find_symbol
program_symbol name = do
  found ← mips_elf_find_symbol name
  null_check found none λ sym. (do
    shndx ← st_shndx sym
    fail_if (not (shndx == shn_abs)) none (do value ← st_value sym; in_program value))

-- The assignments at the end of `mips_elf_load`.
abbrev pub start_state : ℕ → ℕ → ℕ → MipsCpu → MipsCpu
start_state gp end entry c =
    record (set_ur 31 0 (set_ur 29 ((c.memsz + 2 ^ 32 - 4) % 2 ^ 32) (set_ur 28 gp c))) {
      brk = end;
      pc = entry;
    }

-- The part of `mips_elf_load` that sets up the registers.
unfoldable pub set_up : Command ℕ
unfolding program_symbol
set_up = do
  gp ← program_symbol gp_name
  null_check gp minus_one λ symgp. (do
    end ← program_symbol end_name
    null_check end minus_one λ symend. (do
      e ← e_entry
      allowed ← in_program e
      null_check allowed minus_one λ entry c. done 0 (start_state symgp symend entry c)))

abbrev pub is_failure : ℕ → Bool
is_failure r = not (r == 0)

-- `mips_elf_load`, behind its first assignments.
unfoldable pub load_image : Command ℕ
unfolding check_eh_limits load_segments get_symtab set_up
load_image c =
    (do
      limits ← check_eh_limits c.elfsz
      fail_if (is_failure limits) minus_one (do
        segments ← load_segments
        fail_if (is_failure segments) minus_one (do
          symtab ← get_symtab
          fail_if (is_failure symtab) minus_one
              (do entry ← e_entry; fail_if (leb (sub64 c.memsz c.stksz) entry) minus_one set_up))))
      c

unfoldable pub mips_elf_load : (ℕ → ℕ) → ℕ → Command ℕ
unfolding load_image
mips_elf_load elf elfsz c = load_image (record c { elf = elf; elfsz = elfsz })
