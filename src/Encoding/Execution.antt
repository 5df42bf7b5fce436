-- ===== src/Encoding/Execution.antt =====
-- One instruction of vm/cpuemu.c, and any number of them, under two encodings of the memory.
use cspim.Base.{
  ℕ, inl, inr, ◌==◌, ◌||◌, if◌then◌else◌, Bool, arith, IsWord, true, false, not, Bool-cases, Option,
  none, some,
}
use cspim.Opcodes.{Opcode, code, special, regimm, mips_decode, opcode_of}
use cspim.Cpu.{Memory, MipsCpu, Command, Exception, Outcome, and_then, throw_if}
use cspim.Memory.View.{guest_word, accessible, mips_peek_uw-guest_word}
use cspim.Execute.{
  Group, jump, branch, alui, alu3, load_store, div_mult, syscalls, breaks, others, group,
  call_handler, do_dispatch, dispatch_found, dispatch_code, check_zero, check_opcode, advance,
  execute_body, caught, mips_execute,
}
use cspim.Execute.Effect.{IsWellFormed}
use cspim.Encoding.{
  Access, recoded, SameWords, Agree, returns, jumps, IsUniform, and_then-Agree, throw_if-IsUniform,
  with_registers,
}
use cspim.Encoding.Registers.{
  do_alui-IsUniform, do_alu3-IsUniform, do_jump-IsUniform, do_branch-IsUniform,
  do_divmult-IsUniform,
}
use cspim.Encoding.Words.{same_word}
use cspim.Encoding.LoadStore.{do_loadstore-Agree}

module _ {f : Access} where
  check_zero-IsUniform : IsUniform f check_zero
  check_zero-IsUniform c b s = throw_if-IsUniform (not (c.ur 0 == 0)) Exception.abort c b s

  advance-IsUniform : (fdelay : Bool) → IsUniform f (advance fdelay)
  unfolding advance
  advance-IsUniform true c b s = returns tt _ _ (with_registers _ _ _ _ _ s)
  advance-IsUniform false c b s = elim (Bool-cases (c.delay_slot == 0)) [
    | inl e ↦ rw e (returns tt _ _ (with_registers _ _ _ _ _ s))
    | inr e ↦ rw e (returns tt c b s)
  ]

  -- What stands behind the dispatcher.
  finish-IsUniform :
      (fdelay : Bool) → IsUniform f (λ c. and_then (check_zero c) (λ _. advance fdelay))
  finish-IsUniform fdelay c b s =
      and_then-Agree (λ _. advance fdelay) (check_zero-IsUniform c b s)
        λ _. advance-IsUniform fdelay

module _ {f : Access} {c : MipsCpu} {b : Memory} (s : SameWords f c b) (wf : IsWellFormed c) where
  call_handler-Agree :
      (g : Group) (insn : ℕ) (op : Opcode)
      → Agree f (call_handler g insn op c) (call_handler g insn op (recoded f c b))
  unfolding call_handler
  call_handler-Agree jump insn op = do_jump-IsUniform insn op c b s
  call_handler-Agree branch insn op = do_branch-IsUniform insn op c b s
  call_handler-Agree alui insn op = do_alui-IsUniform insn op c b s
  call_handler-Agree alu3 insn op = do_alu3-IsUniform insn op c b s
  call_handler-Agree load_store insn op = do_loadstore-Agree s wf insn op
  call_handler-Agree div_mult insn op = do_divmult-IsUniform insn op c b s
  call_handler-Agree syscalls insn op = jumps Exception.syscall c b s
  call_handler-Agree breaks insn op = jumps Exception.break c b s
  call_handler-Agree others insn op = jumps Exception.abort c b s

  do_dispatch-Agree :
      (insn : ℕ) (op : Opcode)
      → Agree f (do_dispatch insn op c) (do_dispatch insn op (recoded f c b))
  unfolding do_dispatch
  do_dispatch-Agree insn op = call_handler-Agree (group op) insn op

  dispatch_code-Agree :
      (insn n : ℕ) → Agree f (dispatch_code insn n c) (dispatch_code insn n (recoded f c b))
  unfolding dispatch_code
  dispatch_code-Agree insn n = found (opcode_of n)
    where
      found :
          (o : Option Opcode)
          → Agree f (dispatch_found insn o c) (dispatch_found insn o (recoded f c b))
      found none = jumps Exception.abort c b s
      found (some op) = do_dispatch-Agree insn op

  -- A check that leaves the state as it is.
  checked :
      (t : Bool) (e : Exception) (k : Unit {0} → Command (Unit {0}))
      → Agree f (k tt c) (k tt (recoded f c b))
      → Agree f (and_then (throw_if t e c) k) (and_then (throw_if t e (recoded f c b)) k)
  checked true e k h = jumps e c b s
  checked false e k h = h

  -- What stands behind the decoder.
  abbrev dispatched : ℕ → Bool → ℕ → Command (Unit {0})
  dispatched insn fdelay opcode c = and_then (check_zero c) (λ _ c'.
      and_then (dispatch_code insn opcode c')
        (λ _ c''. and_then (check_zero c'') (λ _. advance fdelay)))

  decoded-Agree :
      (insn : ℕ) (fdelay : Bool) (d : Option ℕ)
      → Agree f
          (and_then (check_opcode d c) (dispatched insn fdelay))
          (and_then (check_opcode d (recoded f c b)) (dispatched insn fdelay))
  unfolding check_opcode
  decoded-Agree insn fdelay none = jumps Exception.invalid c b s
  decoded-Agree insn fdelay (some n) = elim (Bool-cases (n == code special || n == code regimm)) [
    | inl e ↦ rw e (jumps Exception.abort c b s)
    | inr e ↦ rw e (
        checked (not (c.ur 0 == 0)) Exception.abort _
          (and_then-Agree _ (dispatch_code-Agree insn n) λ _. finish-IsUniform fdelay))
  ]

  execute_body-Agree : Agree f (execute_body c) (execute_body (recoded f c b))
  unfolding execute_body
  execute_body-Agree =
      let a = if not (c.delay_slot == 0) then c.delay_slot else c.pc in
      let word : IsWord a = ground (arith, wf.pc_word, wf.delay_slot_word) in
      elim (Bool-cases (accessible c a 4)) [
        | inl e ↦
            rw
              (
                mips_peek_uw-guest_word c a s.safe word,
                mips_peek_uw-guest_word (recoded f c b) a s.safe' word,
                e,
                same_word s a e,
              )
              (decoded-Agree (guest_word (recoded f c b) a) (not (c.delay_slot == 0))
                (mips_decode (guest_word (recoded f c b) a)))
        | inr e ↦
            rw
              (
                mips_peek_uw-guest_word c a s.safe word,
                mips_peek_uw-guest_word (recoded f c b) a s.safe' word,
                e,
              )
              (jumps Exception.address c b s)
      ]

-- Results of `mips_execute` that agree.
pub data AgreeResult (f : Access)
    : Option (Exception × MipsCpu) → Option (Exception × MipsCpu) → Type 0 where
  both :
      (e : Exception) (c : MipsCpu) (b : Memory)
      → SameWords f c b
      → AgreeResult f (some (e, c)) (some (e, recoded f c b))
  neither : AgreeResult f none none

caught-AgreeResult :
    {f : Access} {o o' : Outcome (Unit {0})} → Agree f o o' → AgreeResult f (caught o) (caught o')
caught-AgreeResult (returns a c b s) = both Exception.ok c b s
caught-AgreeResult (jumps e c b s) = both e c b s
caught-AgreeResult Agree.breaks = neither

pub mips_execute-AgreeResult :
    {f : Access} {c : MipsCpu} {b : Memory}
    → SameWords f c b
    → IsWellFormed c
    → AgreeResult f (mips_execute c) (mips_execute (recoded f c b))
unfolding mips_execute
mips_execute-AgreeResult s wf = caught-AgreeResult (execute_body-Agree s wf)
