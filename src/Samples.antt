-- ===== src/Samples.antt =====
-- Jobs, a heap, a clock and a process that the tests of several modules use, and what holds of the
-- jobs.
use csc.Base.{ℕ, ◌<◌, ◌≤◌, refl, arith, All, true, false, List, [], ◌∷◌, ◌+◌, ◌++◌, ltb}
use csc.Base.Int.{pos}
use csc.CString.{codes, until_nul, strnlen}
use csc.CString.Scan.{is_space}
use csc.CString.Decimals.{IsInk}
use csc.Job.{Job, Heap, update, unused}
use csc.Job.Copy.{HasLabel}
use csc.Job.Text.RoundTrip.{IsPlain}
use csc.Ipc.{Grants}
use csc.Proc.{ProcType, Proc, Clock}

abbrev pub letters : List ℕ
letters = codes "abcdefghijklmnopqrstuvwxyz01234" ++ (0 ∷ [])

abbrev pub job : ℕ → ℕ → Job
job n p = record { pid = pos 7; id = n; priority = p; label = letters }

abbrev pub heap : Heap
heap = record {
  cell = update (λ _. unused) 0 (job 9 4);
  live = λ p. ltb p 10;
  next = 10;
  refuse = λ _. false;
  raw = unused;
}

abbrev pub clock : Clock
clock = record { random = λ n. 1000 + n; draws = 5; naps = [] }

abbrev pub proc : Proc
proc = record {
  type = ProcType.sem_cons_proc;
  type_label = codes "sem_cons";
  name = codes "none";
  id = pos 12;
  jobs = pos 3;
  is_init = true;
  delay_start = pos 0;
  delay_exit = pos 0;
  crit_work = record { least = pos 20; most = pos 40 };
  noncrit_work = record { least = pos 0; most = pos 40 };
}

-- Where nothing fails.
abbrev pub granted : Grants
granted = record {
  malloc = true;
  shm_unlink = true;
  shm_open = true;
  ftruncate = true;
  mmap = true;
}

pub job-HasLabel : (n p : ℕ) → HasLabel (job n p)
unfolding strnlen
job-HasLabel n p = record { size = refl; text = refl }

All-IsInk : (s : List ℕ) → All (λ c. (33 ≤ c) × (c ≤ 255)) s → All IsInk s
unfolding is_space
All-IsInk [] h = tt
All-IsInk (c ∷ s) (here, h) =
    (record { dark = ground (arith, here); some_char = λ e. omega (arith, here.0) }, All-IsInk s h)

pub job-IsPlain : (n p : ℕ) → n < 100000 → p < 100000 → IsPlain (job n p)
job-IsPlain n p hn hp = record {
  labelled = job-HasLabel n p;
  ink = All-IsInk (until_nul letters) (omega arith);
  pid_fits = refl;
  id_fits = omega arith;
  priority_fits = omega arith;
}
