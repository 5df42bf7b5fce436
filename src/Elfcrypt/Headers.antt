-- ===== src/Elfcrypt/Headers.antt =====
-- The loop of `main` of hostapps/elfcrypt.c over the program headers.
use cspim.Base.{
  ℕ, zero, suc, ◌+◌, ◌≡◌, ◌≢◌, refl, arith, ◌==◌, false, Bool-cases, inl, inr, ltb, Option, some,
}
use cspim.Cpu.{Memory}
use cspim.Elf.{pt_load}
use cspim.Rc5.{rc5_setup}
use cspim.Runner.{rc5_convert_key}
use cspim.Elfcrypt.{
  Tool, value, fails, converted, ◌>>=◌, no_load_segments, word_at, half_at, crypt_header,
  headers_loop, crypt_headers, check_eh_limits, header_turns, main,
}

module _ (elf : Memory) (elfsz ph : ℕ) {type : ℕ} (first : word_at elf elfsz ph ≡ value type)
    (other : type ≢ pt_load) where
  crypt_header_skips :
      (s : ℕ → ℕ) (i cnt : ℕ) → crypt_header s elfsz ph i (elf, cnt) ≡ value (elf, cnt)
  unfolding crypt_header
  crypt_header_skips s i cnt =
      let e : (type == pt_load) ≡ false = ground (arith, other) in rw (first, e) refl

  module _ {phnum : ℕ} (count : half_at elf elfsz 44 ≡ value phnum) where
    headers_loop_skips :
        (s : ℕ → ℕ) (n i cnt : ℕ) → headers_loop s elfsz ph n i (elf, cnt) ≡ value (elf, cnt)
    unfolding headers_loop
    headers_loop_skips s zero i cnt = refl
    headers_loop_skips s (suc n) i cnt = elim (Bool-cases (ltb i phnum)) [
      | inl e ↦ rw (count, e, crypt_header_skips s i cnt) (headers_loop_skips s n (i + 1) cnt)
      | inr e ↦ rw (count, e) refl
    ]

    pub crypt_headers-no_load_segments :
        (n : ℕ) (s : ℕ → ℕ)
        → word_at elf elfsz 28 ≡ value ph
        → crypt_headers n s elf elfsz ≡ fails no_load_segments
    unfolding crypt_headers
    crypt_headers-no_load_segments n s table = rw (table, headers_loop_skips s n 0 0) refl

    behind_checks :
        (n : ℕ) (o : Option (ℕ → ℕ)) (t : Tool (Unit {0})) (key : ℕ → ℕ)
        → word_at elf elfsz 28 ≡ value ph
        → o ≡ some key
        → t ≡ value tt
        → (do s ← converted o; checked ← t; crypt_headers n s elf elfsz) ≡ fails no_load_segments
    behind_checks n o t key table converts checks =
        rw (converts, checks) (crypt_headers-no_load_segments n (rc5_setup key) table)

    -- If the text of the key can be converted, the file passes the checks of its header, and the
    -- first program header lies in the file and is not of type PT_LOAD, then elfcrypt fails with
    -- the message that there are no PT_LOAD segments, whatever the other headers are.
    pub main-no_load_segments :
        (hex_length : ℕ) (scan : ℕ → Option ℕ) (key0 key : ℕ → ℕ)
        → word_at elf elfsz 28 ≡ value ph
        → rc5_convert_key hex_length scan key0 ≡ some key
        → check_eh_limits elf elfsz ≡ value tt
        → main (hex_length, scan) key0 elf elfsz ≡ fails no_load_segments
    unfolding main
    main-no_load_segments hex_length scan key0 key =
        behind_checks header_turns (rc5_convert_key hex_length scan key0)
          (check_eh_limits elf elfsz) key
