-- ===== src/SemJobqueue/Typed.antt =====
-- That the memory which the processes share keeps the layout of the structs.
use csc.Base.{
  ℕ, zero, suc, ◌-◌, ◌≤◌, ◌≡◌, refl, sym, ap, subst, Bool, List, replicate, length, length-append,
  length-replicate, All, All-append, arith,
}
use csc.CString.{strncpy, strnlen}
use csc.Job.{Job, unused}
use csc.Job.Copy.{HasLabel}
use csc.PriJobqueue.{PriJobqueue, job_buffer_size}
use csc.PriJobqueue.Inv.{Holds, All-labelled}
use csc.SemJobqueue.Processes.{State, IsSizedHeap, Reach}
use csc.SemJobqueue.Keeps.{Reach-Inv}
use csc.SemJobqueue.Safety.{Fresh, Fresh-Inv}

-- The array has all its slots, of which `size` are used at most, and each has a label of 31
-- characters and a terminator in its 32 bytes.
pub record IsLaidOut (q : PriJobqueue) : Type 0 where
  pub buf_size : q.buf_size ≡ job_buffer_size
  pub slots : length q.jobs ≡ job_buffer_size
  pub size : q.size ≤ job_buffer_size
  pub labels : All HasLabel q.jobs

HasLabel-replicate : (n : ℕ) → All HasLabel (replicate n unused)
unfolding strnlen strncpy
HasLabel-replicate zero = tt
HasLabel-replicate (suc n) = (record { size = refl; text = refl }, HasLabel-replicate n)

Holds-IsLaidOut : (q : PriJobqueue) (live : List Job) → Holds q live → IsLaidOut q
Holds-IsLaidOut q live holds = record {
  buf_size = holds.whole;
  slots = omega (
    arith,
    ap length holds.slots,
    length-append live (replicate (job_buffer_size - length live) unused),
    length-replicate (job_buffer_size - length live) unused,
    holds.fits,
  );
  size = omega (arith, holds.count, holds.fits);
  labels = subst (All HasLabel) (sym holds.slots) (
      All-append HasLabel live _ (All-labelled live holds.queued)
        (HasLabel-replicate (job_buffer_size - length live)));
}

-- In every state that processes reach from a new queue, in the middle of calls too, and where
-- there is memory, given or allocated, for the job of every dequeue: the shared queue has 128
-- slots, at most so many jobs, and in each slot a label of 31 characters and a terminator; and in
-- the memory of every process each label is an array of 32 bytes.
pub Reach-IsLaidOut :
    (n o : ℕ) (strict : Bool) (s u : State)
    → Fresh o s
    → Reach n strict s u
    → IsLaidOut (u.shared.system.content o) × ((j : ℕ) → IsSizedHeap (u.procs j).heap)
Reach-IsLaidOut n o strict s u fresh reach =
    let v = Reach-Inv n o strict s u (Fresh-Inv n o strict s fresh) reach in
    (Holds-IsLaidOut (u.shared.system.content o) v.live v.holds, v.sized)
