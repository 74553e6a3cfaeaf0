-- ===== src/SemJobqueue/Tests.antt =====
-- A run of two processes that share a queue, and the theorems about every run at it.
use csc.Base.{
  ◌⊎◌, ℕ, zero, suc, ◌+◌, ◌-◌, ◌*◌, ◌≤◌, ◌<◌, ◌≡◌, refl, true, none, some, List, [], ◌∷◌, ◌++◌,
  length, replicate, arith,
}
use csc.CString.{codes, strncpy, strnlen}
use csc.Job.{Job, Heap, unused}
use csc.Samples.{job, heap, clock, proc}
use csc.PriJobqueue.{job_buffer_size}
use csc.PriJobqueue.Spec.{pop}
use csc.PriJobqueue.Inv.{Holds}
use csc.IpcJobqueue
use csc.SemJobqueue.{
  Shared, acquire, interrupt, dequeue, enqueue, Answer, pointer, rest, entry, await, step,
  enqueue_step, dequeue_step,
}
use csc.SemJobqueue.Alone.Vain.{Vain, IsVain-Vain}
use csc.SemJobqueue.Processes.{Process, State, IsSizedHeap, Step, Reach}
use csc.SemJobqueue.Invariant.{locked, in_flight}
use csc.SemJobqueue.Keeps.{each}
use csc.SemJobqueue.Safety.{Fresh, mutual_exclusion}
use csc.SemJobqueue.History.{put, history, event, occurred, replay, IsSerial}
use csc.SemJobqueue.History.Serial.{history-IsSerial}
use csc.SemJobqueue.History.Returns.{Agreed, Stands, trail}
use csc.SemJobqueue.History.Fifo.{jobs_put, jobs_got, queue_is_fifo}
use csc.PriJobqueue.Drain.{of_priority}
use csc.SemJobqueue.Progress.{CanMove}
use csc.SemJobqueue.Completion.{Run, IsSettled, calls_end}
use csc.SemJobqueue.Typed.{IsLaidOut, Reach-IsLaidOut}
use csc.SemJobqueue.Supply.{semaphores_count, dequeue_finds, enqueue_adds}

abbrev shared : Shared
shared = record {
  mutex = 1;
  full = 0;
  empty = 128;
  system = record {
    named = λ _. some 5;
    content = λ _. record { buf_size = 128; size = 0; jobs = replicate 128 unused };
    sized = λ _. true;
    next = 6;
    user = none;
    errno = 0;
    clock = clock;
  };
}

abbrev process : Process
process = record {
  ijq = record { proc = proc; name = codes "/ipc_jobq"; addr = 5 };
  heap = heap;
  pc = rest Answer.nothing;
}

abbrev begin : State
begin = record { shared = shared; procs = λ _. process }

heap-IsSizedHeap : IsSizedHeap heap
unfolding strncpy
heap-IsSizedHeap = each (λ j. length j.label ≡ 32) 0 (λ _. unused) (job 9 4) (λ _. refl) refl

begin-Fresh : Fresh 5 begin
unfolding strnlen
begin-Fresh = record {
  holds = record { whole = refl; count = refl; fits = omega arith; slots = refl; queued = tt };
  mutex = refl;
  full = refl;
  empty = refl;
  idle = λ j. refl;
  mapped = λ j. refl;
  sized = λ j. heap-IsSizedHeap;
}

-- Process 0 is about to add its job.
abbrev adding : (u : State) × Reach 2 true begin u
unfolding strnlen entry step enqueue_step await
adding = (
  _,
  Reach.later
      (Reach.later
        (Reach.later Reach.start (
          Step.call 0 true (enqueue (some 0)) heap Answer.nothing (omega arith) refl
            heap-IsSizedHeap ((λ e. omega arith), refl)))
        (Step.move 0 acquire (omega arith) refl))
      (Step.move 0 acquire (omega arith) refl),
)

-- Its call is over.
abbrev added : (u : State) × Reach 2 true begin u
unfolding adding step enqueue_step
added = (
  _,
  Reach.later
      (Reach.later (Reach.later adding.1 (Step.move 0 acquire (omega arith) refl))
        (Step.move 0 acquire (omega arith) refl))
      (Step.move 0 acquire (omega arith) refl),
)

-- Process 1 is about to take a job out to new memory, after a call that was interrupted.
abbrev taking : (u : State) × Reach 2 true begin u
unfolding adding added entry step dequeue_step await
taking = (
  _,
  Reach.later
      (Reach.later
        (Reach.later
          (Reach.later
            (Reach.later added.1 (
              Step.call 1 true (dequeue (some 4)) heap Answer.nothing (omega arith) refl
                heap-IsSizedHeap tt))
            (Step.move 1 interrupt (omega arith) refl))
          (Step.call 1 true (dequeue none) heap (Answer.pointer none) (omega arith) refl
            heap-IsSizedHeap refl))
        (Step.move 1 acquire (omega arith) refl))
      (Step.move 1 acquire (omega arith) refl),
)

-- It has taken the job out.
abbrev took : (u : State) × Reach 2 true begin u
unfolding taking step dequeue_step
took = (_, Reach.later taking.1 (Step.move 1 acquire (omega arith) refl))

added_history : history added.1 ≡ put (job 9 4) ∷ []
unfolding history event occurred adding added strncpy strnlen
added_history = refl

added-at_rest : (j : ℕ) → j < 2 → in_flight (added.0.procs j).pc ≡ 0
unfolding adding added
added-at_rest zero lt = refl
added-at_rest (suc zero) lt = refl
added-at_rest (suc (suc j)) lt = absurd (omega arith)

Reach-IsLaidOut_example :
    IsLaidOut (took.0.shared.system.content 5) × ((j : ℕ) → IsSizedHeap (took.0.procs j).heap)
Reach-IsLaidOut_example = Reach-IsLaidOut 2 5 true begin took.0 begin-Fresh took.1

mutual_exclusion_example : locked (taking.0.procs 1).pc + locked (taking.0.procs 0).pc ≤ 1
mutual_exclusion_example =
    mutual_exclusion 2 5 true begin taking.0 1 0 begin-Fresh taking.1 (omega arith) (omega arith)
      (λ e. omega arith)

semaphores_count_example :
    (live : List Job) × Holds (added.0.shared.system.content 5) live
    × (added.0.shared.full ≡ length live)
    × (added.0.shared.empty ≡ job_buffer_size - length live)
semaphores_count_example = semaphores_count 2 5 begin added.0 begin-Fresh added.1 added-at_rest

dequeue_finds_example :
    let (r, t, h) = IpcJobqueue.dequeue (some process.ijq) none taking.0.shared.system heap in
    (live : List Job) × (m : Job) × (others : List Job) × Holds
      (taking.0.shared.system.content 5)
      live
    × (pop live ≡ some (m, others))
    × (r ≡ some 10)
    × (h.cell 10 ≡ m)
    × Holds (t.content 5) others
unfolding adding added taking
dequeue_finds_example =
    dequeue_finds 2 5 begin taking.0 1 none begin-Fresh taking.1 (omega arith) refl

enqueue_adds_example :
    let t = IpcJobqueue.enqueue (some process.ijq) (some 0) begin.shared.system heap in
    (live : List Job) × Holds (begin.shared.system.content 5) live
    × Holds (t.content 5) (live ++ (heap.cell 0 ∷ []))
unfolding adding added taking strnlen
enqueue_adds_example =
    enqueue_adds 2 5 true begin adding.0 0 0 begin-Fresh adding.1 (omega arith) refl
      ((λ e. omega arith), refl)

history-IsSerial_example :
    IsSerial (history took.1)
    × Holds (took.0.shared.system.content 5) (replay (history took.1))
    × ((j : ℕ)
        → Agreed (trail took.1 j) (took.0.procs j) × Stands (trail took.1 j).event (history took.1))
    × (took.0.shared.mutex ≤ 1)
    × (took.0.shared.full + took.0.shared.empty ≤ job_buffer_size)
history-IsSerial_example = history-IsSerial 2 5 true begin took.0 begin-Fresh took.1

queue_is_fifo_example :
    (live : List Job) × Holds (took.0.shared.system.content 5) live
    × (of_priority 4 (jobs_got (history took.1)) ++ of_priority 4 live
        ≡ of_priority 4 (jobs_put (history took.1)))
queue_is_fifo_example = queue_is_fifo 2 5 4 begin took.0 begin-Fresh took.1

calls_end_example :
    (1 ≤ 5 * 2)
    × (CanMove 2 took.0
        ⊎ ((j : ℕ) → j < 2 → IsSettled (took.0.shared.system.content 5) (took.0.procs j).pc))
unfolding taking took step dequeue_step
calls_end_example =
    calls_end 2 5 1 begin taking.0 took.0 begin-Fresh taking.1
      (Run.on 1 acquire Run.still (omega arith) refl)

-- Memory of which none is left.
abbrev refusing : Heap
refusing = record heap { refuse = λ p. true }

-- The job that was added cannot be handed over.
IsVain-Vain_example :
    Vain process.ijq (replay (history added.1)) added.0.shared refusing (dequeue none)
unfolding adding added step enqueue_step
IsVain-Vain_example =
    IsVain-Vain process.ijq added.0.shared refusing (dequeue none) (replay (history added.1))
      (history-IsSerial 2 5 true begin added.0 begin-Fresh added.1).1 (refl, refl) (omega arith)
      (omega arith)
