-- ===== src/Elf/Symbols.antt =====
-- The symbol table of vm/elfload.c: sections, strings and symbols, looked up by name and by address.
use cspim.Base.{
  ℕ, zero, suc, ◌+◌, ◌-◌, ◌*◌, ◌/◌, ◌^◌, bit_and, if◌then◌else◌, ltb, leb, ◌==◌, ◌||◌, ◌&&◌, not,
  Bool, true, false, Option, none, some, u32, List, [], ◌∷◌,
}
use cspim.Cpu.{Command, done, undefined, minus_one, ◌>>=◌}
use cspim.Memory.{pure}
use cspim.Elf.{
  read_byte, sh_type, sh_offset, sh_size, sh_entsize, st_name, st_value, st_info, sht_symtab,
  sht_strtab, fail_if, null_check,
}

-- The search for the terminator, over `n` bytes from `off + i` on.
unfoldable pub scan_loop : ℕ → ℕ → Command Bool
scan_loop zero at = pure false
scan_loop (suc n) at = do
  b ← read_byte at
  let rest = scan_loop n (at + 1)
  if b == 0 then pure true else rest

unfoldable pub get_string : ℕ → ℕ → Command (Option ℕ)
unfolding scan_loop
get_string sh ndx c =
    (do
      off ← sh_offset sh
      type ← sh_type sh
      fail_if (not (type == sht_strtab)) none (do
        size ← sh_size sh
        fail_if (leb size ndx || leb c.elfsz off) none (do
          terminated ← scan_loop (size - ndx) (off + ndx)
          pure (if terminated then some (off + ndx) else none))))
      c

unfoldable pub get_sym : ℕ → ℕ → Command (Option ℕ)
get_sym sh ndx c =
    (do
      entsize ← sh_entsize sh
      offset ← sh_offset sh
      let toff = u32 (ndx * entsize)
      let off = u32 (offset + toff)
      type ← sh_type sh
      fail_if (not (type == sht_symtab)) none (do
        size ← sh_size sh
        pure (if leb size toff || leb c.elfsz off then none else some off)))
      c

-- A string constant without its terminator against the string behind a pointer into the image.
unfoldable pub sequal : List ℕ → ℕ → Command Bool
sequal [] s = do b ← read_byte s; pure (b == 0)
sequal (ch ∷ name) s = do
  b ← read_byte s
  let rest = sequal name (s + 1)
  if ch == b then rest else pure false

abbrev pub st_bind : ℕ → ℕ
st_bind info = info / 2 ^ 4

abbrev pub st_type : ℕ → ℕ
st_type info = bit_and info 0xf

abbrev pub stb_global : ℕ
stb_global = 1

abbrev pub stt_section : ℕ
stt_section = 3

-- A pointer is followed. C does not define it for NULL.
abbrev pub follow : Option ℕ → Command ℕ
follow none c = undefined
follow (some p) c = done p c

-- `a / b` of unsigned operands.
abbrev pub divide_sizes : ℕ → ℕ → Command ℕ
divide_sizes a b c = if b == 0 then undefined else done (a / b) c

-- Whether the symbol is the wanted one: `none` means that its name is not a string.
unfoldable pub symbol_matches : List ℕ → ℕ → Command (Option Bool)
unfolding get_string sequal
symbol_matches name sym c =
    (do
      info ← st_info sym
      fail_if (not (st_bind info == stb_global)) (some false) (do
        shsymstr ← follow c.shsymstr
        name_at ← st_name sym
        symname ← get_string shsymstr name_at
        null_check symname none λ s. (do same ← sequal name s; pure (some same))))
      c

-- The loop of `mips_elf_find_symbol`, over `n` symbols from the index `i` on.
unfoldable pub find_symbol_loop : ℕ → List ℕ → ℕ → ℕ → Command (Option ℕ)
unfolding get_sym symbol_matches
find_symbol_loop shsymtab name zero i = pure none
find_symbol_loop shsymtab name (suc n) i = do
  found ← get_sym shsymtab i
  let rest = find_symbol_loop shsymtab name n (i + 1)
  null_check found none λ sym. (do
    matches ← symbol_matches name sym
    null_check matches none λ same. if same then pure (some sym) else rest)

unfoldable pub mips_elf_find_symbol : List ℕ → Command (Option ℕ)
unfolding find_symbol_loop
mips_elf_find_symbol name c =
    (do
      shsymtab ← follow c.shsymtab
      size ← sh_size shsymtab
      entsize ← sh_entsize shsymtab
      n ← divide_sizes size entsize
      offset ← sh_offset shsymtab
      fail_if (ltb c.elfsz (u32 (offset + size))) none (find_symbol_loop shsymtab name n 0))
      c

-- Whether a symbol is passed over by `mips_elf_find_address`.
abbrev pub is_skipped : ℕ → Bool
is_skipped info = not (st_bind info == stb_global) || leb stt_section (st_type info)

-- One turn of its loop, on `min` and `ret`, for a symbol with these fields.
unfoldable pub nearer : ℕ → ℕ → ℕ → ℕ → ℕ × Option ℕ → ℕ × Option ℕ
nearer addr sym info value (min, ret) =
    if is_skipped info
    then (min, ret)
    else if leb value addr && ltb (addr - value) min
    then (addr - value, some sym)
    else (min, ret)

-- The loop of `mips_elf_find_address`, over `n` symbols from the index `i` on. It ends early when
-- the distance 0 is found.
unfoldable pub find_address_loop : ℕ → ℕ → ℕ → ℕ → ℕ × Option ℕ → Command (Option ℕ)
unfolding get_sym nearer
find_address_loop shsymtab addr zero i (min, ret) = pure ret
find_address_loop shsymtab addr (suc n) i best = do
  found ← get_sym shsymtab i
  null_check found none λ sym. (do
    info ← st_info sym
    value ← st_value sym
    let best' = nearer addr sym info value best
    let rest = find_address_loop shsymtab addr n (i + 1) best'
    if best'.0 == 0 then pure best'.1 else rest)

unfoldable pub mips_elf_find_address : ℕ → Command (Option ℕ)
unfolding find_address_loop
mips_elf_find_address addr c =
    (do
      shsymtab ← follow c.shsymtab
      size ← sh_size shsymtab
      entsize ← sh_entsize shsymtab
      n ← divide_sizes size entsize
      offset ← sh_offset shsymtab
      fail_if (ltb c.elfsz (u32 (offset + size)) || leb c.memsz addr) none
          (find_address_loop shsymtab addr n 0 (minus_one, none)))
      c

unfoldable pub mips_elf_get_symname : ℕ → Command (Option ℕ)
unfolding get_string
mips_elf_get_symname sym c =
    (do shsymstr ← follow c.shsymstr; name ← st_name sym; get_string shsymstr name) c
