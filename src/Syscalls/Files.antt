-- ===== src/Syscalls/Files.antt =====
-- The system calls of vm/hosted/syscalls.c on files.
use cspim.Base.{
  ℕ, zero, suc, ◌+◌, ◌-◌, if◌then◌else◌, leb, ◌==◌, ◌||◌, not, Bool, Option, none, some, List, [],
  ◌∷◌, u32,
}
use cspim.Cpu.{
  MipsCpu, Exception, Outcome, done, thrown, undefined, minus_one, max_fds, set_ur, update,
  and_then,
}
use cspim.Memory.{mips_peek_ub, mips_copyin, mips_copyout}
use cspim.Syscalls.{
  Host, Handler, exception_code, is_negative, is_bad_fd, is_stdio, returned, returned_with,
}

-- `find_fd_slot`, over the descriptors from `max_fds - n` on.
unfoldable pub fd_slot_loop : ℕ → MipsCpu → Option ℕ
fd_slot_loop zero c = none
fd_slot_loop (suc n) c =
    let rest = fd_slot_loop n c in
    if c.fds (max_fds - suc n) == minus_one then some (max_fds - suc n) else rest

unfoldable pub find_fd_slot : MipsCpu → Option ℕ
unfolding fd_slot_loop
find_fd_slot = fd_slot_loop max_fds

module _ {W : Type 0} (host : Host W) where
  -- The flags for `open`, or `none` for flags that are not supported.
  abbrev pub open_flags : ℕ → Option ℕ
  open_flags flags =
      if flags == 0
      then some host.read_flags
      else if flags == 1
      then some host.create_flags
      else if flags == 2
      then some host.update_flags
      else none

  -- A call of a handler on the bytes that a copy loop gives.
  abbrev pub with_name :
      Outcome (Option (List ℕ)) → W → (List ℕ → Handler W) → Option (ℕ × W × MipsCpu)
  with_name (done (some fname) c) w k = k fname w c
  with_name (done none c) w k = some (exception_code Exception.address, w, c)
  with_name (thrown e c) w k = some (exception_code e, w, c)
  with_name undefined w k = none

  -- A byte in front of the name.
  abbrev pub prefixed : ℕ → Outcome (Option (List ℕ)) → Outcome (Option (List ℕ))
  prefixed ch (done (some s) c) = done (some (ch ∷ s)) c
  prefixed ch (done none c) = done none c
  prefixed ch (thrown e c) = thrown e c
  prefixed ch undefined = undefined

  -- The loop that copies the file name, with room for `n` more bytes; `none` when it does not fit.
  unfoldable pub name_loop : ℕ → ℕ → MipsCpu → Outcome (Option (List ℕ))
  unfolding mips_peek_ub
  name_loop zero addr c = done none c
  name_loop (suc n) addr c = and_then (mips_peek_ub addr c) λ ch c'.
      let rest = prefixed ch (name_loop n (u32 (addr + 1)) c') in
      if ch == 0 then done (some []) c' else rest

  abbrev pub opened_at : Option ℕ → ℕ → List ℕ → Handler W
  opened_at none flags fname w c = returned_with minus_one w c
  opened_at (some fd) flags fname w c =
      let (hostfd, w') = host.open_file fname flags host.rw_mode w in
      let opened = record c { fds = update c.fds fd hostfd } in
      returned_with (if is_negative hostfd || hostfd == 0 then minus_one else fd) w' opened

  -- The file is opened in the slot, and the descriptor table gets the result in any case.
  unfoldable pub open_in_slot : ℕ → List ℕ → Handler W
  unfolding find_fd_slot
  open_in_slot flags fname w c = opened_at (find_fd_slot c) flags fname w c

  -- The flags are tested before the name is read.
  abbrev pub open_with : Option ℕ → Handler W
  open_with none w c = returned_with minus_one w c
  open_with (some flags) w c = with_name (name_loop 256 (c.ur 4) c) w (open_in_slot flags)

  unfoldable pub do_open : Handler W
  unfolding name_loop open_in_slot
  do_open w c = open_with (open_flags (c.ur 5)) w c

  -- The bounds of `do_read` and `do_write`.
  abbrev pub beyond : MipsCpu → Bool
  beyond c = leb c.memsz (u32 (c.ur 5 + c.ur 6))

  -- The result of a copy is ignored; there is no handler for an exception.
  abbrev pub copied :
      {A : Type 0} → Outcome A → (A → MipsCpu → Option (ℕ × W × MipsCpu)) → Option (ℕ × W × MipsCpu)
  copied (done a c) k = k a c
  copied (thrown _ _) k = none
  copied undefined k = none

  unfoldable pub do_read : Handler W
  unfolding mips_copyout
  do_read w c =
      let (r, w') = host.read (c.fds (c.ur 4)) (c.ur 6) w in
      let c' = set_ur 2 r.0 c in
      if beyond c
      then some (exception_code Exception.address, w, c)
      else if is_bad_fd (c.ur 4) c
      then returned_with minus_one w c
      else if not (host.malloc (c.ur 6) w)
      then some (exception_code Exception.abort, w, c)
      else if is_negative r.0 || r.0 == 0
      then returned w' c'
      else copied (mips_copyout (c.ur 5) r.1 c') (λ _ c2. returned w' c2)

  unfoldable pub do_write : Handler W
  unfolding mips_copyin
  do_write w c =
      if beyond c
      then some (exception_code Exception.address, w, c)
      else if is_bad_fd (c.ur 4) c
      then returned_with minus_one w c
      else if not (host.malloc (c.ur 6) w)
      then some (exception_code Exception.abort, w, c)
      else copied (mips_copyin (c.ur 5) (c.ur 6) c)
          (λ r c'. let (n, w') = host.write (c'.fds (c.ur 4)) r.1 w in returned_with n w' c')

  unfoldable pub do_close : Handler W
  do_close w c =
      let fd = c.ur 4 in
      let (r, w') = host.close (c.fds fd) w in
      if is_stdio fd || is_bad_fd fd c
      then returned_with minus_one w c
      else returned_with r w' (record c { fds = update c.fds fd minus_one })

  -- The constant for `lseek`, or `none`.
  abbrev pub seek_origin : ℕ → Option ℕ
  seek_origin whence =
      if whence == 0
      then some host.seek_set
      else if whence == 1
      then some host.seek_cur
      else if whence == 2
      then some host.seek_end
      else none

  abbrev pub seek_from : Option ℕ → Handler W
  seek_from none w c = returned_with minus_one w c
  seek_from (some whence) w c =
      let fd = c.ur 4 in
      let (r, w') = host.lseek (c.fds fd) (c.ur 5) whence w in
      if is_stdio fd || is_bad_fd fd c then returned_with minus_one w c else returned_with r w' c

  unfoldable pub do_lseek : Handler W
  do_lseek w c = seek_from (seek_origin (c.ur 6)) w c
