-- ===== src/SemJobqueue/Processes.antt =====
-- Processes that share a job queue, interleaved in any order, and what they may ask of it.
use csc.Base.{ℕ, ◌<◌, ◌≡◌, ◌≢◌, Bool, true, false, none, some, length}
use csc.CString.{strnlen}
use csc.Job.{Ptr, Heap, update}
use csc.Ipc.{Ipc}
use csc.SemJobqueue.{Shared, Wait, Call, dequeue, enqueue, look, Answer, Pc, rest, entry, step}

pub record Process : Type 0 where
  pub ijq : Ipc
  pub heap : Heap
  pub pc : Pc

pub record State : Type 0 where
  pub shared : Shared
  pub procs : ℕ → Process

-- A job that the priority queue takes if there is room.
abbrev pub IsValidJob : Heap → Ptr → Type 0
IsValidJob h none = ⊥
IsValidJob h (some p) = ((h.cell p).priority ≢ 0) × (strnlen (h.cell p).label 32 ≡ 31)

abbrev pub IsGiven : Bool → Heap → Ptr → Type 0
IsGiven true h job = IsValidJob h job
IsGiven false h job = Unit

-- Labels are arrays of 32 bytes.
abbrev pub IsSizedHeap : Heap → Type 0
IsSizedHeap h = (p : ℕ) → length (h.cell p).label ≡ 32

-- There is memory for the job that a dequeue hands over.
abbrev pub CanReceive : Heap → Ptr → Type 0
CanReceive h none = h.refuse h.next ≡ false
CanReceive h (some d) = Unit

-- What callers respect: there is memory for the job of a dequeue, given or allocated; and, where
-- `strict`, an enqueue names a valid job.
abbrev pub IsProper : Bool → Heap → Call → Type 0
IsProper strict h (dequeue dst) = CanReceive h dst
IsProper strict h (enqueue job) = IsGiven strict h job
IsProper strict h (look l) = Unit

-- One step of one of the first `n` processes. Between two calls a process may change its own
-- memory; a call may be made with a NULL queue.
pub data Step (n : ℕ) (strict : Bool) (s : State) : State → Type 0 where
  call :
      (i : ℕ) (queue_given : Bool) (c : Call) (h : Heap) (a : Answer)
      → i < n
      → (s.procs i).pc ≡ rest a
      → IsSizedHeap h
      → IsProper strict h c
      → Step n strict s (record s {
        procs =
            update s.procs i (record { ijq = (s.procs i).ijq; heap = h; pc = entry queue_given c });
      })
  move :
      (i : ℕ) (w : Wait) {t : Shared} {h : Heap} {p : Pc}
      → i < n
      → step w (s.procs i).ijq s.shared (s.procs i).heap (s.procs i).pc ≡ some (t, h, p)
      → Step n strict s (record {
        shared = t;
        procs = update s.procs i (record { ijq = (s.procs i).ijq; heap = h; pc = p });
      })

pub data Reach (n : ℕ) (strict : Bool) (s : State) : State → Type 0 where
  start : Reach n strict s s
  later : {t u : State} → Reach n strict s t → Step n strict t u → Reach n strict s u
