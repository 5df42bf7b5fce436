-- ===== src/Elf/Loading.antt =====
-- What `mips_elf_load` of vm/elfload.c leaves, whatever the image.
use cspim.Base.{
  ℕ, zero, suc, ◌+◌, ◌-◌, ◌/◌, ◌==◌, Bool, true, false, List, Option, none, some, if◌then◌else◌,
}
use cspim.Cpu.{MipsCpu, Command, Outcome, minus_one}
use cspim.Memory.{pure}
use cspim.Elf.{pt_null, pt_load}
use cspim.Elf.Segments.{copy_segment, load_segment, load_header, segments_loop, load_segments}
use cspim.Elf.Load.{note_section, sections_loop, check_sections, get_symtab, is_named}
use cspim.Elf.Ensures.{
  Ensures, returns, and_then-Ensures, look_first-Ensures, fail_if-Ensures, null_check-Ensures,
  IsImage, OnlyLooks, looks_at, read_half-Looks, read_word-Looks,
}
use cspim.Elf.Lookup.{
  get_phdr-OnlyLooks, get_shdr-OnlyLooks, get_string-OnlyLooks, sequal-OnlyLooks,
}
use cspim.Elf.Copying.{Loading, copy_loop-Loading, clear_loop-Loading}

-- The state stays sound, whatever the command returns.
abbrev pub Keeps : {A : Type 0} → MipsCpu → Outcome A → Type 0
Keeps c0 = Ensures (λ _. Loading c0) (Loading c0)

is_named-OnlyLooks :
    {c : MipsCpu} → IsImage c → (s : Option ℕ) (name : List ℕ) → OnlyLooks c (is_named s name c)
is_named-OnlyLooks image none name = looks_at false
is_named-OnlyLooks {c} image (some s) name = sequal-OnlyLooks c image name s

module _ {c0 : MipsCpu} where
  either :
      {A : Type 0} {c : MipsCpu} (b : Bool) (m m' : Command A)
      → Keeps c0 (m c)
      → Keeps c0 (m' c)
      → Keeps c0 ((if b then m else m') c)
  either true m m' h g = h
  either false m m' h g = g

  copy_segment-Keeps :
      (vaddr offset filesz segsz : ℕ) {c : MipsCpu}
      → Loading c0 c
      → Keeps c0 (copy_segment vaddr offset filesz segsz c)
  unfolding copy_segment
  copy_segment-Keeps vaddr offset filesz segsz l =
      and_then-Ensures _ _ (copy_loop-Loading vaddr offset (filesz / 4) 0 l) λ _ c' l'.
        and_then-Ensures _ _ (clear_loop-Loading vaddr offset ((segsz - filesz) / 4) filesz l')
          λ _ c'' l''. returns 0 c'' l''

  load_segment-Keeps : (ph : ℕ) {c : MipsCpu} → Loading c0 c → Keeps c0 (load_segment ph c)
  unfolding load_segment
  load_segment-Keeps ph {c} l =
      look_first-Ensures _ _ (read_word-Looks c l.image (ph + 4)) λ offset _.
        look_first-Ensures _ _ (read_word-Looks c l.image (ph + 16)) λ filesz _.
          fail_if-Ensures _ _ _ l (
            look_first-Ensures _ _ (read_word-Looks c l.image (ph + 8)) λ vaddr _.
              look_first-Ensures _ _ (read_word-Looks c l.image (ph + 20)) λ segsz _.
                fail_if-Ensures _ _ _ l (
                  fail_if-Ensures _ _ _ l
                    (fail_if-Ensures _ _ _ l (copy_segment-Keeps vaddr offset filesz segsz l))))

  load_header-Keeps : (ph : ℕ) {c : MipsCpu} → Loading c0 c → Keeps c0 (load_header ph c)
  unfolding load_header
  load_header-Keeps ph {c} l = look_first-Ensures _ _ (read_word-Looks c l.image ph) λ type _.
      either (type == pt_null) (pure 0)
        (if type == pt_load then load_segment ph else pure minus_one) (returns 0 c l)
        (either (type == pt_load) (load_segment ph) (pure minus_one) (load_segment-Keeps ph l)
          (returns minus_one c l))

  segments_loop-Keeps : (n i : ℕ) {c : MipsCpu} → Loading c0 c → Keeps c0 (segments_loop n i c)
  unfolding segments_loop
  segments_loop-Keeps zero i {c} l = returns 0 c l
  segments_loop-Keeps (suc n) i {c} l =
      look_first-Ensures _ _ (get_phdr-OnlyLooks c l.image i) λ found _.
        null_check-Ensures _ _ _ l λ ph.
          and_then-Ensures _ _ (load_header-Keeps ph l)
            λ failed c' l'. fail_if-Ensures _ _ _ l' (segments_loop-Keeps n (i + 1) l')

  pub load_segments-Keeps : {c : MipsCpu} → Loading c0 c → Keeps c0 (load_segments c)
  unfolding load_segments
  load_segments-Keeps {c} l =
      look_first-Ensures _ _ (read_half-Looks c l.image 44) λ phnum _. segments_loop-Keeps phnum 0 l

  -- The pointers to the symbol table and its strings.
  Loading-with_tables :
      {c : MipsCpu} (p q : Option ℕ)
      → Loading c0 c
      → Loading c0 (record c { shsymtab = p; shsymstr = q })
  Loading-with_tables p q l = record {
    well_formed = record {
      safe = record {
        access = l.well_formed.safe.access;
        bytes = l.well_formed.safe.bytes;
        whole_words = l.well_formed.safe.whole_words;
        address_space = l.well_formed.safe.address_space;
      };
      registers = l.well_formed.registers;
      hi_word = l.well_formed.hi_word;
      lo_word = l.well_formed.lo_word;
      pc_word = l.well_formed.pc_word;
      delay_slot_word = l.well_formed.delay_slot_word;
    };
    isolated = record {
      forbidden = l.isolated.forbidden;
      same_size = l.isolated.same_size;
      same_image = l.isolated.same_image;
      same_access = l.isolated.same_access;
      same_fds = l.isolated.same_fds;
    };
    image = l.image;
  }

  note_section-Keeps :
      (i sh : ℕ) (shshstr : Option ℕ) {c : MipsCpu}
      → Loading c0 c
      → Keeps c0 (note_section i sh shshstr c)
  unfolding note_section
  note_section-Keeps i sh shshstr {c} l =
      look_first-Ensures _ _ (read_half-Looks c l.image 50) λ shstrndx _. fail_if-Ensures _ _ _ l (
        look_first-Ensures _ _ (read_word-Looks c l.image (sh + 4)) λ type _.
          fail_if-Ensures _ _ _ l
            (fail_if-Ensures _ _ _ l (returns _ _ (Loading-with_tables (some sh) c.shsymstr l))))

  sections_loop-Keeps :
      (n i : ℕ) (shshstr : Option ℕ) {c : MipsCpu}
      → Loading c0 c
      → Keeps c0 (sections_loop n i shshstr c)
  unfolding sections_loop
  sections_loop-Keeps zero i shshstr {c} l = returns (some shshstr) c l
  sections_loop-Keeps (suc n) i shshstr {c} l =
      look_first-Ensures _ _ (get_shdr-OnlyLooks c l.image i) λ found _.
        null_check-Ensures _ _ _ l λ sh.
          and_then-Ensures _ _ (note_section-Keeps i sh shshstr l) λ noted c' l'.
            null_check-Ensures _ _ _ l' λ shshstr'. sections_loop-Keeps n (i + 1) shshstr' l'

  check_sections-Keeps :
      (shsymtab shshstr : ℕ) {c : MipsCpu}
      → Loading c0 c
      → Keeps c0 (check_sections shsymtab shshstr c)
  unfolding check_sections
  check_sections-Keeps shsymtab shshstr {c} l =
      look_first-Ensures _ _ (read_word-Looks c l.image shsymtab) λ name _.
        look_first-Ensures _ _ (get_string-OnlyLooks c l.image shshstr name) λ secname _.
          look_first-Ensures _ _ (read_word-Looks c l.image (shsymtab + 24)) λ link _.
            look_first-Ensures _ _ (read_half-Looks c l.image 48) λ shnum _.
              fail_if-Ensures _ _ _ l (
                look_first-Ensures _ _ (is_named-OnlyLooks l.image secname _) λ b _.
                  fail_if-Ensures _ _ _ l (
                    look_first-Ensures _ _ (get_shdr-OnlyLooks c l.image link) λ found _.
                      let l' = Loading-with_tables c.shsymtab found l in
                      let c' = record c { shsymstr = found } in
                      null_check-Ensures _ _ _ l' λ shsymstr.
                        look_first-Ensures _ _ (read_word-Looks c' l'.image shsymstr) λ name' _.
                          look_first-Ensures _ _ (get_string-OnlyLooks c' l'.image shshstr name')
                            λ secname' _.
                              look_first-Ensures _ _ (read_word-Looks c' l'.image (shsymstr + 4))
                                λ type _. fail_if-Ensures _ _ _ l' (
                                  look_first-Ensures _ _ (is_named-OnlyLooks l'.image secname' _)
                                    λ b' _. returns _ c' l')))

  pub get_symtab-Keeps : {c : MipsCpu} → Loading c0 c → Keeps c0 (get_symtab c)
  unfolding get_symtab
  get_symtab-Keeps {c} l =
      let l' = Loading-with_tables none none l in
      let c' = record c { shsymtab = none; shsymstr = none } in
      look_first-Ensures _ _ (read_half-Looks c' l'.image 48) λ shnum _.
        and_then-Ensures _ _ (sections_loop-Keeps shnum 0 none l') λ result c'' l''.
          null_check-Ensures _ _ _ l'' λ shshstr.
            null_check-Ensures _ _ _ l''
              λ shsymtab. null_check-Ensures _ _ _ l'' λ s. check_sections-Keeps shsymtab s l''
