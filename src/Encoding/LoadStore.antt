-- ===== src/Encoding/LoadStore.antt =====
-- `do_loadstore` does the same under every encoding.
use cspim.Base.{
  ℕ, inl, inr, ◌==◌, if◌then◌else◌, Bool, arith, IsWord, true, false, bit_and, not, sub32, ◌<<◌,
  Bool-cases,
}
use cspim.Opcodes.{Opcode, lui, lb, lh, lwl, lw, lbu, lhu, lwr, sb, sh, swl, sw, swr, f_rt}
use cspim.Cpu.{Memory, MipsCpu, Command, Exception, done, and_then, write_reg, set_ur}
use cspim.Instruction.{f_rs, z_imm}
use cspim.Execute.Effect.{IsWellFormed}
use cspim.Execute.AluEffect.{u32-IsWord}
use cspim.Execute.LoadStoreEffect.{swl_word-IsWord, swr_word-IsWord}
use cspim.Memory.{
  mips_peek_ub, mips_peek_sb, mips_peek_uh, mips_peek_sh, mips_peek_uw, mips_poke_uw, pure,
}
use cspim.Memory.View.{accessible, mips_peek_uw-guest_word}
use cspim.Instruction.LoadStore.{
  lwl_word, lwr_word, swl_word, swr_word, load_store_switch, do_loadstore,
}
use cspim.Encoding.{
  Access, recoded, SameWords, Agree, returns, jumps, and_then-Agree, done-IsUniform,
  throw_if-IsUniform, with_registers, write_reg-IsUniform,
}
use cspim.Encoding.Words.{
  same_word, peek_ub-Agree, peek_sb-Agree, peek_uh-Agree, peek_sh-Agree, peek_uw-Agree,
  poke_ub-Agree, poke_uh-Agree, poke_uw-Agree,
}

module _ {f : Access} {c : MipsCpu} {b : Memory} (s : SameWords f c b) where
  load-Agree :
      (r : ℕ) (m : Command ℕ)
      → Agree f (m c) (m (recoded f c b))
      → Agree f (write_reg r m c) (write_reg r m (recoded f c b))
  load-Agree r m h = elim (Bool-cases (r == 0)) [
    | inl e ↦ rw e (returns tt c b s)
    | inr e ↦ rw e (
        and_then-Agree (λ v c'. done tt (set_ur r v c')) h
          λ v c' b' s'. returns tt _ _ (with_registers _ _ _ _ _ s'))
  ]

  -- A word is loaded, which leaves the state as it is, and `k` goes on with it.
  peek_then-Agree :
      (a : ℕ) (k : ℕ → Command (Unit {0}))
      → IsWord a
      → ((v : ℕ) → IsWord v → Agree f (k v c) (k v (recoded f c b)))
      → Agree f (and_then (mips_peek_uw a c) k) (and_then (mips_peek_uw a (recoded f c b)) k)
  peek_then-Agree a k word h = elim (Bool-cases (accessible c a 4)) [
    | inl e ↦
        rw
          (
            mips_peek_uw-guest_word c a s.safe word,
            mips_peek_uw-guest_word (recoded f c b) a s.safe' word,
            e,
            same_word s a e,
          )
          (h _ (omega arith))
    | inr e ↦
        rw
          (
            mips_peek_uw-guest_word c a s.safe word,
            mips_peek_uw-guest_word (recoded f c b) a s.safe' word,
            e,
          )
          (jumps Exception.address c b s)
  ]

  optional_peek-Agree :
      (t : Bool) (a : ℕ) (k : ℕ → Command (Unit {0}))
      → IsWord a
      → ((v : ℕ) → IsWord v → Agree f (k v c) (k v (recoded f c b)))
      → Agree f
          (and_then ((if t then pure 0 else mips_peek_uw a) c) k)
          (and_then ((if t then pure 0 else mips_peek_uw a) (recoded f c b)) k)
  optional_peek-Agree true a k word h = h 0 (omega arith)
  optional_peek-Agree false a k word h = peek_then-Agree a k word h

module _ {f : Access} {c : MipsCpu} {b : Memory} (s : SameWords f c b) (wf : IsWellFormed c) where
  rt : (insn : ℕ) → IsWord (c.ur (f_rt insn))
  rt insn = wf.registers.words (f_rt insn)

  load_store_switch-Agree :
      (insn : ℕ) (op : Opcode) (ea : ℕ)
      → IsWord ea
      → Agree f (load_store_switch insn op ea c) (load_store_switch insn op ea (recoded f c b))
  unfolding load_store_switch
  load_store_switch-Agree insn lb ea h =
      load-Agree s (f_rt insn) (mips_peek_sb ea) (peek_sb-Agree s ea h)
  load_store_switch-Agree insn lbu ea h =
      load-Agree s (f_rt insn) (mips_peek_ub ea) (peek_ub-Agree s ea h)
  load_store_switch-Agree insn lh ea h =
      load-Agree s (f_rt insn) (mips_peek_sh ea) (peek_sh-Agree s ea h)
  load_store_switch-Agree insn lhu ea h =
      load-Agree s (f_rt insn) (mips_peek_uh ea) (peek_uh-Agree s ea h)
  load_store_switch-Agree insn lw ea h =
      load-Agree s (f_rt insn) (mips_peek_uw ea) (peek_uw-Agree s ea h)
  load_store_switch-Agree insn sb ea h = poke_ub-Agree s ea (c.ur (f_rt insn)) h
  load_store_switch-Agree insn sh ea h = poke_uh-Agree s ea (c.ur (f_rt insn)) h
  load_store_switch-Agree insn sw ea h = poke_uw-Agree s ea (c.ur (f_rt insn)) h (rt insn)
  load_store_switch-Agree insn lui ea h =
      and_then-Agree (λ _ c. write_reg (f_rt insn) (done (z_imm insn << 16)) c)
        (throw_if-IsUniform (not (f_rs insn == 0)) Exception.invalid c b s)
        λ _.
          write_reg-IsUniform (f_rt insn) (done (z_imm insn << 16))
            (done-IsUniform (z_imm insn << 16))
  load_store_switch-Agree insn lwl ea h =
      peek_then-Agree s (sub32 ea (bit_and ea 3))
        (λ w c. write_reg (f_rt insn) (done (lwl_word (bit_and ea 3) w (c.ur (f_rt insn)))) c)
        (u32-IsWord _)
        λ w hw.
          write_reg-IsUniform (f_rt insn) _
            (done-IsUniform (lwl_word (bit_and ea 3) w (c.ur (f_rt insn)))) c b s
  load_store_switch-Agree insn lwr ea h =
      peek_then-Agree s (sub32 ea (bit_and ea 3))
        (λ w c. write_reg (f_rt insn) (done (lwr_word (bit_and ea 3) w (c.ur (f_rt insn)))) c)
        (u32-IsWord _)
        λ w hw.
          write_reg-IsUniform (f_rt insn) _
            (done-IsUniform (lwr_word (bit_and ea 3) w (c.ur (f_rt insn)))) c b s
  load_store_switch-Agree insn swl ea h =
      optional_peek-Agree s (bit_and ea 3 == 3) (sub32 ea (bit_and ea 3))
        (λ w c.
          mips_poke_uw (sub32 ea (bit_and ea 3)) (swl_word (bit_and ea 3) w (c.ur (f_rt insn))) c)
        (u32-IsWord _)
        λ w hw.
          poke_uw-Agree s _ _ (u32-IsWord _)
            (swl_word-IsWord (bit_and ea 3) w (c.ur (f_rt insn)) hw (rt insn))
  load_store_switch-Agree insn swr ea h =
      optional_peek-Agree s (bit_and ea 3 == 0) (sub32 ea (bit_and ea 3))
        (λ w c.
          mips_poke_uw (sub32 ea (bit_and ea 3)) (swr_word (bit_and ea 3) w (c.ur (f_rt insn))) c)
        (u32-IsWord _)
        λ w hw.
          poke_uw-Agree s _ _ (u32-IsWord _)
            (swr_word-IsWord (bit_and ea 3) w (c.ur (f_rt insn)) hw (rt insn))
  load_store_switch-Agree insn _ ea h = jumps Exception.abort c b s

  pub do_loadstore-Agree :
      (insn : ℕ) (op : Opcode)
      → Agree f (do_loadstore insn op c) (do_loadstore insn op (recoded f c b))
  unfolding do_loadstore
  do_loadstore-Agree insn op = load_store_switch-Agree insn op _ (u32-IsWord _)
