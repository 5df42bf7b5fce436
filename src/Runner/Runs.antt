-- ===== src/Runner/Runs.antt =====
-- What holds of every run of a program, however many instructions it takes.
use cspim.Base.{ℕ, zero, suc, ◌≡◌, ◌≢◌, refl, ◌∙◌, Option, none, some}
use cspim.Cpu.{MipsCpu, Exception}
use cspim.Execute.{mips_execute}
use cspim.Execute.Effect.{IsWellFormed}
use cspim.Execute.Step.{NextOverflows}
use cspim.Execute.Safety.{IsIsolated, Judged, mips_execute-Judged}
use cspim.Runner.{proceed, run}

-- A run that ends with the exception `e`, or with `ok` because no call is left.
pub record SafeRun (c : MipsCpu) (e : Exception) (c' : MipsCpu) : Type 0 where
  pub well_formed : IsWellFormed c'
  pub isolated : IsIsolated c c'
  pub no_abort : e ≢ Exception.abort

-- Where a run is undefined, it has come to a state whose next instruction overflows the division.
pub record Overflowing (c : MipsCpu) : Type 0 where
  pub count : ℕ
  pub state : MipsCpu
  pub reached : run count c ≡ some (Exception.ok, state)
  pub overflows : NextOverflows state

abbrev pub RunJudged : MipsCpu → Option (Exception × MipsCpu) → Type 0
RunJudged c none = Overflowing c
RunJudged c (some (e, c')) = SafeRun c e c'

pub IsIsolated-trans : {c c' c'' : MipsCpu} → IsIsolated c c' → IsIsolated c' c'' → IsIsolated c c''
IsIsolated-trans i j = record {
  forbidden = λ k h. j.forbidden k (rw i.same_size.0 h) ∙ i.forbidden k h;
  same_size =
      (j.same_size.0 ∙ i.same_size.0, j.same_size.1 ∙ i.same_size.1, j.same_size.2 ∙ i.same_size.2);
  same_image = (j.same_image.0 ∙ i.same_image.0, j.same_image.1 ∙ i.same_image.1);
  same_access = (j.same_access.0 ∙ i.same_access.0, j.same_access.1 ∙ i.same_access.1);
  same_fds = j.same_fds ∙ i.same_fds;
}

pub IsIsolated-refl : (c : MipsCpu) → IsIsolated c c
IsIsolated-refl c = record {
  forbidden = λ j h. refl;
  same_size = (refl, refl, refl);
  same_image = (refl, refl);
  same_access = (refl, refl);
  same_fds = refl;
}

-- The verdict on the rest of a run, seen from its start.
extended :
    {c c' : MipsCpu} (o : Option (Exception × MipsCpu))
    → mips_execute c ≡ some (Exception.ok, c')
    → IsIsolated c c'
    → RunJudged c' o
    → RunJudged c o
unfolding run proceed
extended none e i r = record {
  count = suc r.count;
  state = r.state;
  reached = rw e r.reached;
  overflows = r.overflows;
}
extended (some (x, c'')) e i r = record {
  well_formed = r.well_formed;
  isolated = IsIsolated-trans i r.isolated;
  no_abort = r.no_abort;
}

proceed-RunJudged :
    (c : MipsCpu) (n : ℕ) (o : Option (Exception × MipsCpu))
    → mips_execute c ≡ o
    → Judged c o
    → ((c' : MipsCpu) → IsWellFormed c' → RunJudged c' (run n c'))
    → RunJudged c (proceed o (run n))
unfolding proceed run
proceed-RunJudged c n none e j k = record { count = 0; state = _; reached = refl; overflows = j }
proceed-RunJudged c n (some (Exception.ok, c')) e j k =
    extended (run n c') e j.isolated (k c' j.well_formed)
proceed-RunJudged c n (some (Exception.overflow, c')) e j k = record {
  well_formed = j.well_formed;
  isolated = j.isolated;
  no_abort = j.no_abort;
}
proceed-RunJudged c n (some (Exception.address, c')) e j k = record {
  well_formed = j.well_formed;
  isolated = j.isolated;
  no_abort = j.no_abort;
}
proceed-RunJudged c n (some (Exception.invalid, c')) e j k = record {
  well_formed = j.well_formed;
  isolated = j.isolated;
  no_abort = j.no_abort;
}
proceed-RunJudged c n (some (Exception.syscall, c')) e j k = record {
  well_formed = j.well_formed;
  isolated = j.isolated;
  no_abort = j.no_abort;
}
proceed-RunJudged c n (some (Exception.break, c')) e j k = record {
  well_formed = j.well_formed;
  isolated = j.isolated;
  no_abort = j.no_abort;
}
proceed-RunJudged c n (some (Exception.abort, c')) e j k = record {
  well_formed = j.well_formed;
  isolated = j.isolated;
  no_abort = j.no_abort;
}

-- From a well-formed state, any number of calls of mips_execute ends in a well-formed state with
-- nothing changed that no program may touch and without MIPS_E_ABORT, or comes to a state whose
-- next instruction divides the least integer by -1.
pub run-RunJudged : (n : ℕ) (c : MipsCpu) → IsWellFormed c → RunJudged c (run n c)
unfolding run
run-RunJudged zero c wf = record {
  well_formed = wf;
  isolated = IsIsolated-refl c;
  no_abort = λ e. cc;
}
run-RunJudged (suc n) c wf =
    proceed-RunJudged c n (mips_execute c) refl (mips_execute-Judged wf) (run-RunJudged n)
