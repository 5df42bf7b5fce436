-- ===== src/Elfcrypt/Loaded.antt =====
-- A segment that hostapps/elfcrypt.c has encrypted and vm/elfload.c has loaded, read by the CPU that
-- has the key.
use cspim.Base.{ℕ, ◌+◌, ◌*◌, ◌/◌, ◌≤◌, ◌<◌, ◌≡◌, ◌∙◌, ◌⊎◌, refl, ap, arith}
use cspim.Cpu.{Memory, MipsCpu, Outcome, done}
use cspim.Memory.{mips_identity_peek_uw}
use cspim.Memory.Access.{IsMemory, identity-IsAccess}
use cspim.Memory.Checked.{IsSafe}
use cspim.Memory.Flat.{with_base}
use cspim.Rc5.{rc5_setup, rc5_peek, rc5_ecb_decrypt, block_of, word_of_block}
use cspim.Rc5.Schedule.{rc5_setup-IsTable}
use cspim.Rc5.Encrypted.{rc5-IsAccess}
use cspim.Elf.Segments.{load_segment}
use cspim.Elf.Segment.{Header, Fits, Loads, loads, load_segment-Loads}
use cspim.Elf.Boot.{given}
use cspim.Elfcrypt.{Tool, value, word_at, crypt_blocks, crypt_segment}
use cspim.Elfcrypt.Blocks.{
  crypt_blocks-IsMemory, crypt_blocks_outside, rc5_peek-crypt_blocks, crypt_loop-crypt_blocks,
}
use cspim.Runner.{with_key}

-- The tool goes on with a value, and `p` holds of it.
pub data Succeeds {A : Type 0} (p : A → Type 0) : Tool A → Type 0 where
  succeeds : (a : A) → p a → Succeeds p (value a)

-- What the CPU `c` reads in the block `m`: the words of the segment of `elf`, and zeros behind them.
pub record ReadsAs (c : MipsCpu) (elf : ℕ → ℕ) (offset vaddr filesz segsz : ℕ) (m : Memory)
    : Type 0 where
  pub words :
      (k : ℕ)
      → k * 4 < filesz
      → c.peek_uw m (vaddr + k * 4) ≡ mips_identity_peek_uw elf (offset + k * 4)
  pub zeros : (k : ℕ) → filesz ≤ k * 4 → k * 4 < segsz → c.peek_uw m (vaddr + k * 4) ≡ 0
  pub elsewhere : (j : ℕ) → (j < vaddr) ⊎ (vaddr + segsz ≤ j) → m j ≡ c.base j

-- The outcome of loading into `c`, with such a block.
pub data LoadsAs (c : MipsCpu) (elf : ℕ → ℕ) (offset vaddr filesz segsz : ℕ)
    : Outcome ℕ → Type 0 where
  loads_as :
      (m : Memory)
      → ReadsAs c elf offset vaddr filesz segsz m
      → LoadsAs c elf offset vaddr filesz segsz (done 0 (with_base c m))

-- The CPU with the key, and the image that the tool has written.
abbrev pub with_image : (ℕ → ℕ) → ℕ → (ℕ → ℕ) → MipsCpu → MipsCpu
with_image elf elfsz key c = given elf elfsz (with_key (rc5_setup key) c)

module _ (elf : ℕ → ℕ) (elfsz : ℕ) (image : IsMemory elf) (key : ℕ → ℕ) {c : MipsCpu}
    (safe : IsSafe c) {ph offset vaddr filesz segsz : ℕ}
    (header : Header elf ph offset vaddr filesz segsz)
    (fits : Fits (with_image elf elfsz key c) offset vaddr filesz segsz) (inside : ph + 32 ≤ elfsz)
    (apart : (ph + 32 ≤ offset) ⊎ (offset + filesz ≤ ph)) where
  abbrev written : Memory
  written = crypt_blocks (rc5_setup key) (filesz / 4) offset elf

  word : (off : ℕ) → off + 4 ≤ elfsz → word_at elf elfsz off ≡ value (mips_identity_peek_uw elf off)
  unfolding mips_identity_peek_uw
  word off h = ground arith

  crypt_segment-written : crypt_segment (rc5_setup key) elfsz ph elf ≡ value written
  unfolding crypt_segment mips_identity_peek_uw
  crypt_segment-written =
      let offset_word : word_at elf elfsz (ph + 4) ≡ value offset =
        word (ph + 4) (omega (arith, inside)) ∙ ap value header.file_offset in
      let filesz_word : word_at elf elfsz (ph + 16) ≡ value filesz =
        word (ph + 16) (omega (arith, inside)) ∙ ap value header.size_in_file in
      let at : offset + 0 ≡ offset = omega arith in
      rw
        (
          offset_word,
          crypt_loop-crypt_blocks (rc5_setup key) (rc5_setup-IsTable key) elfsz ph offset filesz
              fits.in_file apart (filesz / 4) (elfsz / 4) 0 elf (omega (arith, fits.in_file))
              (omega (arith, fits.file_words)) (omega (arith, fits.in_file, fits.file_size))
              filesz_word,
          at,
        )
        refl

  written-Header : Header written ph offset vaddr filesz segsz
  written-Header = record {
    file_offset = same 4 (omega arith) ∙ header.file_offset;
    address = same 8 (omega arith) ∙ header.address;
    size_in_file = same 16 (omega arith) ∙ header.size_in_file;
    size_in_memory = same 20 (omega arith) ∙ header.size_in_memory;
  }
    where
      same :
          (i : ℕ)
          → i + 4 ≤ 32
          → mips_identity_peek_uw written (ph + i) ≡ mips_identity_peek_uw elf (ph + i)
      same i h = identity-IsAccess.peek_local written elf (ph + i) λ j l u.
          crypt_blocks_outside (rc5_setup key) (rc5_setup-IsTable key) (filesz / 4) offset elf j
            (ground (arith, fits.file_words, apart))

  abbrev keyed : MipsCpu
  keyed = with_image written elfsz key c

  keyed-IsSafe : IsSafe keyed
  keyed-IsSafe = record {
    access = rc5-IsAccess (rc5_setup key) (rc5_setup-IsTable key);
    bytes = safe.bytes;
    whole_words = safe.whole_words;
    address_space = safe.address_space;
  }

  keyed-Fits : Fits keyed offset vaddr filesz segsz
  keyed-Fits = record {
    above = fits.above;
    aligned = fits.aligned;
    below = fits.below;
    file_part = fits.file_part;
    file_words = fits.file_words;
    memory_words = fits.memory_words;
    in_file = fits.in_file;
    file_size = fits.file_size;
  }

  decrypted :
      {o : Outcome ℕ}
      → Loads keyed offset vaddr filesz segsz o
      → LoadsAs keyed elf offset vaddr filesz segsz o
  unfolding rc5_peek
  decrypted (loads m p) = loads_as m record {
    words = λ k h.
        let n_words : k < filesz / 4 = omega (arith, h, fits.file_words) in
        ap (λ (w : ℕ). word_of_block (rc5_ecb_decrypt (rc5_setup key) (block_of w)))
          (p.verbatim k h)
        ∙ rc5_peek-crypt_blocks (rc5_setup key) (rc5_setup-IsTable key) (filesz / 4) offset elf k
            image n_words;
    zeros = p.zeros;
    elsewhere = p.elsewhere;
  }

  -- For a program header that lies outside of its segment in the file, with whole words that fit
  -- into the file and into the memory below the stack at an aligned address, crypt_segment
  -- succeeds, load_segment on the file that it leaves returns 0, and the CPU with the key then
  -- reads the words of the original segment, zeros behind them, and every byte of the block
  -- outside of the segment is as it was.
  pub crypt_segment-load_segment :
      Succeeds
        (λ elf'.
          LoadsAs
            (with_image elf' elfsz key c)
            elf
            offset
            vaddr
            filesz
            segsz
            (load_segment ph (with_image elf' elfsz key c)))
        (crypt_segment (rc5_setup key) elfsz ph elf)
  crypt_segment-load_segment = rw crypt_segment-written (
      succeeds written (
        decrypted (
          load_segment-Loads keyed-IsSafe
            (crypt_blocks-IsMemory (rc5_setup key) (rc5_setup-IsTable key) (filesz / 4) offset elf
              image)
            keyed-Fits written-Header inside)))
