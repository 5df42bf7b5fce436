-- ===== src/Elf/Segments.antt =====
-- `load_segments` and `load_segment` of vm/elfload.c.
use cspim.Base.{ℕ, zero, suc, ◌+◌, ◌-◌, ◌/◌, ◌%◌, ◌^◌, if◌then◌else◌, ltb, ◌==◌, ◌||◌, not, u32}
use cspim.Cpu.{Command, done, undefined, minus_one, lowbase, ◌>>=◌, ◌>>◌}
use cspim.Memory.{pure, outside, mips_identity_poke_uw, mips_poke_uw}
use cspim.Elf.{
  read_word, e_phnum, p_type, p_offset, p_vaddr, p_filesz, p_memsz, pt_null, pt_load, fail_if,
  null_check, get_phdr,
}

-- `a - b` of type `size_t`.
abbrev pub sub64 : ℕ → ℕ → ℕ
sub64 a b = (a + 2 ^ 64 - b) % 2 ^ 64

-- A call of `mips_identity_poke_uw`, whatever `poke_uw` is.
unfoldable pub identity_poke : ℕ → ℕ → Command (Unit {0})
unfolding mips_identity_poke_uw
identity_poke addr w c =
    if outside c addr
    then undefined
    else done tt (record c { base = mips_identity_poke_uw c.base addr w })

-- The loop that copies the words of the file, `n` of them from the index `i` on.
unfoldable pub copy_loop : ℕ → ℕ → ℕ → ℕ → Command (Unit {0})
unfolding identity_poke
copy_loop vaddr offset zero i = pure tt
copy_loop vaddr offset (suc n) i = do
  w ← read_word (offset + i)
  identity_poke (u32 (vaddr + i)) w
  copy_loop vaddr offset n (i + 4)

-- The loop that fills the rest with zeros.
unfoldable pub clear_loop : ℕ → ℕ → ℕ → Command (Unit {0})
unfolding mips_poke_uw
clear_loop vaddr zero i = pure tt
clear_loop vaddr (suc n) i = do mips_poke_uw (u32 (vaddr + i)) 0; clear_loop vaddr n (i + 4)

-- Both loops.
unfoldable pub copy_segment : ℕ → ℕ → ℕ → ℕ → Command ℕ
unfolding copy_loop clear_loop
copy_segment vaddr offset filesz segsz = do
  copy_loop vaddr offset (filesz / 4) 0
  clear_loop vaddr ((segsz - filesz) / 4) filesz
  pure 0

unfoldable pub load_segment : ℕ → Command ℕ
unfolding copy_segment
load_segment ph c =
    (do
      let memsz = sub64 c.memsz c.stksz
      offset ← p_offset ph
      filesz ← p_filesz ph
      fail_if (ltb c.elfsz (u32 (offset + filesz))) minus_one (do
        vaddr ← p_vaddr ph
        segsz ← p_memsz ph
        fail_if (ltb memsz (u32 (vaddr + segsz))) minus_one (
            fail_if (ltb vaddr lowbase) minus_one (
              fail_if (not (filesz % 4 == 0) || not (segsz % 4 == 0) || ltb segsz filesz) minus_one
                (copy_segment vaddr offset filesz segsz)))))
      c

-- What the loop of `load_segments` does with one header.
unfoldable pub load_header : ℕ → Command ℕ
unfolding load_segment
load_header ph = do
  type ← p_type ph
  if type == pt_null then pure 0 else if type == pt_load then load_segment ph else pure minus_one

-- The loop, over the `n` headers from the index `i` on.
unfoldable pub segments_loop : ℕ → ℕ → Command ℕ
unfolding get_phdr load_header
segments_loop zero i = pure 0
segments_loop (suc n) i = do
  found ← get_phdr i
  null_check found minus_one λ ph. (do
    failed ← load_header ph
    fail_if (not (failed == 0)) minus_one (segments_loop n (i + 1)))

unfoldable pub load_segments : Command ℕ
unfolding segments_loop
load_segments = do phnum ← e_phnum; segments_loop phnum 0
