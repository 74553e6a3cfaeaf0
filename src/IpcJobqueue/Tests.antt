-- ===== src/IpcJobqueue/Tests.antt =====
-- The shared queue at a concrete system.
use csc.Base.{refl, true, none, some, [], ◌∷◌, replicate, arith}
use csc.CString.{codes, strnlen}
use csc.Samples.{job, heap, clock, proc, granted}
use csc.Job.{unused}
use csc.PriJobqueue.{PriJobqueue}
use csc.PriJobqueue.Inv.{Holds}
use csc.Ipc.{Ipc, System}
use csc.IpcJobqueue.{new}
use csc.IpcJobqueue.Outcomes.{Encapsulated, new-Encapsulated}
use csc.IpcJobqueue.Contract.{Contract, Holds-Contract}

-- Every object holds one job.
abbrev queue : PriJobqueue
queue = record { buf_size = 128; size = 1; jobs = job 2 6 ∷ replicate 127 unused }

abbrev system : System PriJobqueue
system = record {
  named = λ _. some 5;
  content = λ _. queue;
  sized = λ _. true;
  next = 6;
  user = none;
  errno = 0;
  clock = clock;
}

abbrev ipc : Ipc
ipc = record { proc = proc; name = codes "/ipc_jobq"; addr = 5 }

queue-Holds : Holds queue (job 2 6 ∷ [])
unfolding strnlen
queue-Holds = record {
  whole = refl;
  count = refl;
  fits = omega arith;
  slots = refl;
  queued =
      (record { ranked = λ e. omega arith; labelled = record { size = refl; text = refl } }, tt);
}

Holds-Contract_example : Contract ipc (job 2 6 ∷ []) none 0 system heap
Holds-Contract_example = Holds-Contract ipc (job 2 6 ∷ []) none 0 system heap queue-Holds refl

new-Encapsulated_example : Encapsulated (some proc) granted system (new (some proc) granted system)
new-Encapsulated_example = new-Encapsulated (some proc) granted system
