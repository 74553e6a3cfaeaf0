-- ===== src/IpcJobqueue.antt =====
-- ipc_jobqueue.h and ipc_jobqueue.c: the priority queue in shared memory. Each operation simulates
-- critical work, then acts on the queue in the object that the process has mapped.
pub mod Laws
pub mod New
pub mod Contract
pub mod Outcomes
mod Tests
use csc.Base.{
  ℕ, zero, suc, Bool, true, false, Option, none, some, List, [], ◌∷◌, ◌==◌, if◌then◌else◌,
  replicate, ◌>>=◌,
}
use csc.Base.Int.{pos}
use csc.CString.{codes}
use csc.Job.{Job, Ptr, Heap, update}
use csc.PriJobqueue
use csc.PriJobqueue.{PriJobqueue, job_buffer_size, size as queue_size, space as queue_space}
use csc.Proc
use csc.Proc.{Proc}
use csc.Ipc
use csc.Ipc.{Ipc, System, Grants}

-- A queue in memory of zeros only.
abbrev pub zeroed : PriJobqueue
zeroed = record {
  buf_size = 0;
  size = 0;
  jobs =
      replicate job_buffer_size
        (record { pid = pos 0; id = 0; priority = 0; label = replicate 32 0 });
}

-- sizeof(pri_jobqueue_t)
abbrev pub queue_bytes : ℕ
queue_bytes = 5640

-- Writes the queue at `o`. A queue operation on a queue that is there leaves one there.
pub store : ℕ → Option PriJobqueue → System PriJobqueue → System PriJobqueue
store o none s = s
store o (some q) s = record s { content = update s.content o q }

-- `do_critical_work(ijq->proc)`
pub work : Ipc → System PriJobqueue → System PriJobqueue
work i s = record s { clock = Proc.do_critical_work (some i.proc) s.clock }

pub initialised : Option Proc → Option Ipc × System PriJobqueue → Option Ipc × System PriJobqueue
initialised none out = out
initialised (some p) (none, s) = (none, s)
initialised (some p) (some i, s) =
    (some i, if p.is_init then store i.addr (PriJobqueue.init (some (s.content i.addr))) s else s)

-- ipc_jobqueue_new: `none` where a fault ends the process
pub new : Option Proc → Grants → System PriJobqueue → Option (Option Ipc × System PriJobqueue)
new proc g s = do
  out ← Ipc.new zeroed proc (some (codes "ipc_jobq")) queue_bytes g s
  some (initialised proc out)

-- ipc_jobqueue_dequeue
pub dequeue : Option Ipc → Ptr → System PriJobqueue → Heap → Ptr × System PriJobqueue × Heap
dequeue none dst s h = (none, s, h)
dequeue (some i) dst s h =
    let t = work i s in
    let (r, q, h') = PriJobqueue.dequeue (some (t.content i.addr)) dst h in
    (r, store i.addr q t, h')

-- ipc_jobqueue_enqueue
pub enqueue : Option Ipc → Ptr → System PriJobqueue → Heap → System PriJobqueue
enqueue none job s h = s
enqueue (some i) job s h =
    let t = work i s in store i.addr (PriJobqueue.enqueue (some (t.content i.addr)) job h) t

-- ipc_jobqueue_is_empty
pub is_empty : Option Ipc → System PriJobqueue → Bool × System PriJobqueue
is_empty none s = (true, s)
is_empty (some i) s = let t = work i s in (PriJobqueue.is_empty (some (t.content i.addr)), t)

-- ipc_jobqueue_is_full
pub is_full : Option Ipc → System PriJobqueue → Bool × System PriJobqueue
is_full none s = (true, s)
is_full (some i) s = let t = work i s in (PriJobqueue.is_full (some (t.content i.addr)), t)

-- ipc_jobqueue_peek
pub peek : Option Ipc → Ptr → System PriJobqueue → Heap → Ptr × System PriJobqueue × Heap
peek none dst s h = (none, s, h)
peek (some i) dst s h =
    let t = work i s in let (r, h') = PriJobqueue.peek (some (t.content i.addr)) dst h in (r, t, h')

-- ipc_jobqueue_size
pub size : Option Ipc → System PriJobqueue → ℕ × System PriJobqueue
size none s = (0, s)
size (some i) s = let t = work i s in (queue_size (some (t.content i.addr)), t)

-- ipc_jobqueue_space
pub space : Option Ipc → System PriJobqueue → ℕ × System PriJobqueue
space none s = (0, s)
space (some i) s = let t = work i s in (queue_space (some (t.content i.addr)), t)

-- ipc_jobqueue_delete
pub delete : Option Ipc → System PriJobqueue → System PriJobqueue
delete none s = s
delete (some i) s = Ipc.delete (some i) s
