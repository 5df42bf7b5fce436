-- ===== src/Elf/Segment.antt =====
-- `load_segment` of vm/elfload.c, for a header whose segment fits.
use cspim.Base.{
  ℕ, ◌+◌, ◌-◌, ◌*◌, ◌/◌, ◌%◌, ◌^◌, ◌≤◌, ◌<◌, ◌≡◌, ◌∙◌, ◌⊎◌, inl, refl, arith, ltb, ◌||◌, ◌==◌, not,
  false, u32,
}
use cspim.Cpu.{Memory, MipsCpu, Outcome, done, lowbase}
use cspim.Memory.{mips_identity_peek_uw}
use cspim.Memory.Access.{IsMemory, identity-IsAccess}
use cspim.Memory.Checked.{IsSafe}
use cspim.Memory.Flat.{with_base}
use cspim.Elf.{fail_if}
use cspim.Elf.Segments.{sub64, copy_segment, load_segment}
use cspim.Elf.Contents.{
  copied, cleared, copied-IsMemory, copied_outside, copied_word, cleared_outside, cleared_word,
}
use cspim.Elf.Placed.{read_word_inside, copy_loop-copied, clear_loop-cleared}

-- The program header at `ph` of the image `elf`.
pub record Header (elf : ℕ → ℕ) (ph offset vaddr filesz segsz : ℕ) : Type 0 where
  pub file_offset : mips_identity_peek_uw elf (ph + 4) ≡ offset
  pub address : mips_identity_peek_uw elf (ph + 8) ≡ vaddr
  pub size_in_file : mips_identity_peek_uw elf (ph + 16) ≡ filesz
  pub size_in_memory : mips_identity_peek_uw elf (ph + 20) ≡ segsz

-- A segment of whole words, inside the image and inside the program's part of the memory.
pub record Fits (c : MipsCpu) (offset vaddr filesz segsz : ℕ) : Type 0 where
  pub above : lowbase ≤ vaddr
  pub aligned : vaddr % 4 ≡ 0
  pub below : vaddr + segsz + c.stksz ≤ c.memsz
  pub file_part : filesz ≤ segsz
  pub file_words : filesz % 4 ≡ 0
  pub memory_words : segsz % 4 ≡ 0
  pub in_file : offset + filesz ≤ c.elfsz
  pub file_size : c.elfsz < 2 ^ 32

-- The segment in the block `m`: the words of the file as they are, zeros for the access function
-- behind them, and everything else as it was.
pub record Placed (c : MipsCpu) (offset vaddr filesz segsz : ℕ) (m : Memory) : Type 0 where
  pub verbatim :
      (k : ℕ)
      → k * 4 < filesz
      → mips_identity_peek_uw m (vaddr + k * 4) ≡ mips_identity_peek_uw c.elf (offset + k * 4)
  pub zeros : (k : ℕ) → filesz ≤ k * 4 → k * 4 < segsz → c.peek_uw m (vaddr + k * 4) ≡ 0
  pub elsewhere : (j : ℕ) → (j < vaddr) ⊎ (vaddr + segsz ≤ j) → m j ≡ c.base j

-- The outcome of loading such a segment into `c`.
pub data Loads (c : MipsCpu) (offset vaddr filesz segsz : ℕ) : Outcome ℕ → Type 0 where
  loads :
      (m : Memory)
      → Placed c offset vaddr filesz segsz m
      → Loads c offset vaddr filesz segsz (done 0 (with_base c m))

module _ {c : MipsCpu} (safe : IsSafe c) (image : IsMemory c.elf) {offset vaddr filesz segsz : ℕ}
    (fits : Fits c offset vaddr filesz segsz) where
  abbrev file_part : Memory
  file_part = copied vaddr c.elf offset (filesz / 4) 0 c.base

  abbrev contents : Memory
  contents = cleared vaddr c.poke_uw ((segsz - filesz) / 4) filesz file_part

  file_part-IsSafe : IsSafe (with_base c file_part)
  file_part-IsSafe = record {
    access = safe.access;
    bytes = copied-IsMemory vaddr c.elf image offset (filesz / 4) 0 c.base safe.bytes;
    whole_words = safe.whole_words;
    address_space = safe.address_space;
  }

  same_word :
      (k : ℕ)
      → k * 4 < filesz
      → mips_identity_peek_uw contents (vaddr + k * 4)
        ≡ mips_identity_peek_uw c.elf (offset + k * 4)
  same_word k h =
      let e : vaddr + 0 + k * 4 ≡ vaddr + k * 4 = omega arith in
      let e' : offset + 0 + k * 4 ≡ offset + k * 4 = omega arith in
      let copy =
        copied_word vaddr c.elf image offset (filesz / 4) 0 c.base k
          (omega (arith, h, fits.file_words)) in
      identity-IsAccess.peek_local contents file_part (vaddr + k * 4) (λ j l u.
        cleared_outside vaddr safe.access ((segsz - filesz) / 4) filesz file_part j
          (inl (omega (arith, u, h, fits.file_words))))
      ∙ (rw (e, e') at copy)

  zero_word : (k : ℕ) → filesz ≤ k * 4 → k * 4 < segsz → c.peek_uw contents (vaddr + k * 4) ≡ 0
  zero_word k l h =
      let i = k - filesz / 4 in
      let e : vaddr + filesz + i * 4 ≡ vaddr + k * 4 = omega (arith, l, fits.file_words) in
      let clear =
        cleared_word vaddr safe.access ((segsz - filesz) / 4) filesz file_part i
          (omega (arith, l, h, fits.file_words, fits.memory_words)) in
      cc

  contents-Placed : Placed c offset vaddr filesz segsz contents
  contents-Placed = record {
    verbatim = λ k h. same_word k h;
    zeros = λ k l h. zero_word k l h;
    elsewhere = λ j h.
        cleared_outside vaddr safe.access ((segsz - filesz) / 4) filesz file_part j
          (ground (arith, fits.file_part, fits.file_words, fits.memory_words))
        ∙ copied_outside vaddr c.elf image offset (filesz / 4) 0 c.base j
            (ground (arith, fits.file_part));
  }

  copy_segment-contents : copy_segment vaddr offset filesz segsz c ≡ done 0 (with_base c contents)
  unfolding copy_segment
  copy_segment-contents =
      rw
        (
          copy_loop-copied vaddr offset fits.above (filesz / 4) 0 c safe.address_space
              (omega (arith, fits.below, fits.file_part)) (omega (arith, fits.in_file)),
          clear_loop-cleared vaddr offset fits.above ((segsz - filesz) / 4) filesz
              (with_base c file_part) file_part-IsSafe fits.aligned fits.file_words
              (omega (arith, fits.below, fits.file_part)),
        )
        refl

  -- In a safe state, for a program header inside the image whose segment has whole words that fit
  -- into the image and into the memory below the stack at an aligned address, load_segment returns
  -- 0, the words of the file stand in the memory as they are, the CPU reads zeros behind them, and
  -- every other byte of the block is as it was.
  pub load_segment-Loads :
      {ph : ℕ}
      → Header c.elf ph offset vaddr filesz segsz
      → ph + 32 ≤ c.elfsz
      → Loads c offset vaddr filesz segsz (load_segment ph c)
  unfolding load_segment fail_if
  load_segment-Loads {ph} header inside =
      let e : ltb c.elfsz (u32 (offset + filesz)) ≡ false =
        ground (arith, fits.in_file, fits.file_size) in
      let e2 : ltb (sub64 c.memsz c.stksz) (u32 (vaddr + segsz)) ≡ false =
        ground (arith, fits.below, safe.address_space) in
      let e3 : ltb vaddr lowbase ≡ false = ground (arith, fits.above) in
      let e4 : (not (filesz % 4 == 0) || not (segsz % 4 == 0) || ltb segsz filesz) ≡ false =
        ground (arith, fits.file_words, fits.memory_words, fits.file_part) in
      rw
        (
          read_word_inside c (ph + 4) (omega (arith, inside)),
          header.file_offset,
          read_word_inside c (ph + 16) (omega (arith, inside)),
          header.size_in_file,
          e,
          read_word_inside c (ph + 8) (omega (arith, inside)),
          header.address,
          read_word_inside c (ph + 20) (omega (arith, inside)),
          header.size_in_memory,
          e2,
          e3,
          e4,
          copy_segment-contents,
        )
        (loads contents contents-Placed)
