-- ===== src/SemJobqueue/History.antt =====
-- What happens to the shared queue of sem_jobqueue.c in a run of its processes: the calls of
-- ipc_jobqueue functions in the order in which they were made, and a queue of one client to compare
-- them with.
pub mod Serial
pub mod Follows
pub mod Returns
pub mod Fifo
use csc.Base.{
  ℕ, ◌+◌, ◌-◌, ◌≤◌, ◌≡◌, ◌≢◌, refl, sym, ap, subst, ◌∙◌, Bool, if◌then◌else◌, Option, none, some,
  List, [], ◌∷◌, length, leb, ◌==◌, arith, inl, inr,
}
use csc.Job.{Job, Ptr, Heap}
use csc.PriJobqueue.{job_buffer_size}
use csc.PriJobqueue.Spec.{pop, push}
use csc.PriJobqueue.Trace.{received, answer, left}
use csc.Ipc.{Ipc}
use csc.IpcJobqueue
use csc.SemJobqueue.{
  Shared, Look, Answer, DequeuePc, EnqueuePc, LookPc, Pc, dequeuing, enqueuing, looking, look_work,
  flag, number, nothing, rest, is_empty, is_full, size, space, peek,
}
use csc.SemJobqueue.Processes.{State, Step, Reach}

-- A job was given to the queue, or taken from it, or seen at its head; or a look was answered.
pub data Event : Type 0 where
  put : Job → Event
  got : Option Job → Event
  saw : Option Job → Event
  told : Look → Answer → Event

-- A peek to new memory shows a job unless `malloc` refuses.
unfoldable pub shown : Bool → Option Job → Option Event
shown refused o = if refused then none else some (saw o)

pub look_event : Ipc → Shared → Heap → Look → Option Event
look_event i s h (peek none) =
    let (r, t, h') = IpcJobqueue.peek (some i) none s.system h in
    shown (h.refuse h.next) (received r h')
look_event i s h (peek (some d)) =
    let (r, t, h') = IpcJobqueue.peek (some i) (some d) s.system h in some (saw (received r h'))
look_event i s h l = some (told l (look_work i l s.system h).0)

-- The event of the next step of a process, if that is the call of an ipc_jobqueue function.
unfoldable pub event : Ipc → Shared → Heap → Pc → Option Event
event i s h (dequeuing (DequeuePc.work dst)) =
    let (r, t, h') = IpcJobqueue.dequeue (some i) dst s.system h in some (got (received r h'))
event i s h (enqueuing (EnqueuePc.work (some p))) = some (put (h.cell p))
event i s h (looking (LookPc.work l)) = look_event i s h l
event i s h p = none

unfoldable pub occurred : Option Event → List Event → List Event
occurred none events = events
occurred (some e) events = e ∷ events

-- The events of a run, the latest first.
unfoldable pub history : {n : ℕ} {strict : Bool} {s u : State} → Reach n strict s u → List Event
history Reach.start = []
history (Reach.later r (Step.call i b c h a below idle sized proper)) = history r
history (Reach.later {t} r (Step.move i w below e)) =
    occurred (event (t.procs i).ijq t.shared (t.procs i).heap (t.procs i).pc) (history r)

-- An event on the abstract queue.
pub apply : List Job → Event → List Job
apply live (put j) = push live j
apply live (got o) = left live (pop live)
apply live e = live

-- The jobs of a queue on which the events happened.
pub replay : List Event → List Job
replay [] = []
replay (e ∷ events) = apply (replay events) e

-- The answer of a look at the abstract queue; a peek, which hands over a job, is a `saw` instead.
pub tells : List Job → Look → Answer
tells live is_empty = flag (length live == 0)
tells live is_full = flag (leb job_buffer_size (length live))
tells live size = number (length live)
tells live space = number (job_buffer_size - length live)
tells live (peek dst) = nothing

-- The abstract queue answers so.
abbrev pub Answers : List Job → Event → Type 0
Answers live (put j) = Unit
Answers live (got o) = o ≡ answer (pop live)
Answers live (saw o) = o ≡ answer (pop live)
Answers live (told l a) = a ≡ tells live l

-- Every event of a history, the latest first, is answered as the abstract queue answers after the
-- earlier ones.
abbrev pub IsSerial : List Event → Type 0
IsSerial [] = Unit
IsSerial (e ∷ events) = Answers (replay events) e × IsSerial events
