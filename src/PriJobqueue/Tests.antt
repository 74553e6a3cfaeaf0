-- ===== src/PriJobqueue/Tests.antt =====
-- Concrete runs of pri_jobqueue.c, and the theorems about it at concrete inputs.
use csc.Base.{
  ℕ, false, ◌<◌, ◌≡◌, refl, none, some, List, [], ◌∷◌, ◌++◌, All, replicate, arith, ◌==◌, ltb,
}
use csc.Base.Memory.{Memory}
use csc.CString.{strnlen}
use csc.Job.{Job, Heap, unused}
use csc.PriJobqueue.{PriJobqueue, is_empty, is_full, size, space, dequeue, peek, enqueue}
use csc.Samples.{job, heap}
use csc.PriJobqueue.Spec.{pop, push}
use csc.PriJobqueue.Inv.{Holds, IsQueued}
use csc.PriJobqueue.Refine.{enqueue_refines, Dequeued, dequeue_refines}
use csc.PriJobqueue.Looks.{Peeked, empty_of, full_of, size_of, space_of, next_of, looks_refine}
use csc.PriJobqueue.Life.{allocate, Allocates, allocate-Allocates}
use csc.PriJobqueue.Drain.{drain, Drained, of_priority}
use csc.PriJobqueue.Lanes.{SameLanes}
use csc.PriJobqueue.Drain.New.{drain_new, both_loops_drain}
use mathlib.Core.Quot
use csc.PriJobqueue.Trace.{Op, put, get, top, measure, run, Sized}
use csc.PriJobqueue.Lanes.Unordered.{lanes_run, run-lanes}
use csc.PriJobqueue.Lanes.Swap.{run-swap}
use csc.PriJobqueue.Fill.{Request, requested, fill, Filled}
use csc.PriJobqueue.Fill.New.{fill_new, both_loops_fill}
use csc.Base.Int.{pos}

abbrev jobs : List Job
jobs = job 1 2 ∷ job 2 1 ∷ job 3 1 ∷ []

abbrev queue : PriJobqueue
queue = record { buf_size = 128; size = 3; jobs = jobs ++ replicate 125 unused }

-- Memory that a queue is made in.
abbrev raw : PriJobqueue
raw = record { buf_size = 5; size = 77; jobs = replicate 128 (job 0 9) }

job-IsQueued : (n p : ℕ) → 0 < p → IsQueued (job n p)
unfolding strnlen
job-IsQueued n p h = record { ranked = omega arith; labelled = record { size = refl; text = refl } }

queue-Holds : Holds queue jobs
queue-Holds = record {
  whole = refl;
  count = refl;
  fits = omega arith;
  slots = refl;
  queued = (
    job-IsQueued 1 2 (omega arith),
    (job-IsQueued 2 1 (omega arith), (job-IsQueued 3 1 (omega arith), tt)),
  );
}

-- Memory for queues; the next address is 1.
abbrev memory : Memory PriJobqueue
memory = record { content = λ p. raw; live = λ p. p == 0; next = 1; refuse = λ p. false }

allocate-Allocates_example : Allocates memory (allocate memory)
allocate-Allocates_example = allocate-Allocates memory refl refl

enqueue_refines_example :
    (q' : PriJobqueue) × (enqueue (some queue) (some 0) heap ≡ some q')
    × Holds q' (push jobs (job 9 4))
enqueue_refines_example = enqueue_refines queue jobs 0 heap queue-Holds refl

dequeue_refines_example :
    Dequeued (pop jobs) queue (some 1) heap (dequeue (some queue) (some 1) heap)
dequeue_refines_example = dequeue_refines queue jobs (some 1) heap queue-Holds

looks_refine_example :
    (is_empty (some queue) ≡ empty_of (some jobs))
    × (is_full (some queue) ≡ full_of (some jobs))
    × (size (some queue) ≡ size_of (some jobs))
    × (space (some queue) ≡ space_of (some jobs))
    × Peeked (next_of (some jobs)) none heap (peek (some queue) none heap)
looks_refine_example = looks_refine (some queue) (some jobs) none heap queue-Holds

-- Every address from 10 on is free.
abbrev plenty : Heap
plenty = record heap { live = λ p. ltb p 10; next = 10; refuse = λ p. false }

both_loops_drain_example :
    Drained jobs (drain 3 (some queue) plenty)
    × Drained jobs (let (seen, pq, h) = drain_new 3 (some queue) plenty in (seen, pq))
    × ((p : ℕ) → (drain_new 3 (some queue) plenty).2.live p ≡ plenty.live p)
both_loops_drain_example =
    both_loops_drain 3 queue jobs plenty queue-Holds (omega arith)
      (record { granted = λ p. refl; fresh = λ p le. ground arith })

abbrev request : ℕ → Request
request i = record { pid = pos 7; id = i; priority = 1; label = none }

both_loops_fill_example :
    let made : ℕ → Job = λ i. requested (request i) in
    let (out, h') = fill_new 125 request 0 (some queue) plenty in
    Filled jobs made 0 (fill 125 request 0 (some queue) plenty)
    × Filled jobs made 0 out
    × ((p : ℕ) → h'.live p ≡ plenty.live p)
both_loops_fill_example =
    both_loops_fill 125 request 0 queue jobs plenty queue-Holds (λ i e. omega arith) (omega arith)
      (record { granted = λ p. refl; fresh = λ p le. ground arith })

pop_order : pop jobs ≡ some (job 2 1, job 1 2 ∷ job 3 1 ∷ [])
unfolding pop
pop_order = refl

-- The same jobs, with the one of the other priority between the two of priority 1.
abbrev others_first : List Job
others_first = job 2 1 ∷ job 1 2 ∷ job 3 1 ∷ []

abbrev calls : List Op
calls = get ∷ put (job 4 1) ∷ top ∷ get ∷ measure ∷ get ∷ []

calls-Sized : All Sized calls
calls-Sized = (tt, (refl, (tt, (tt, (tt, (tt, tt))))))

others_first-SameLanes : SameLanes jobs others_first
unfolding of_priority
others_first-SameLanes c = ground arith

run-lanes_example : run (some queue) heap calls ≡ lanes_run (Quot.mk others_first) calls
run-lanes_example =
    run-lanes calls queue (Quot.mk others_first) heap
      (jobs, queue-Holds, Quot.sound others_first-SameLanes) calls-Sized

run-swap_example :
    run (some queue) heap (put (job 5 3) ∷ put (job 6 1) ∷ calls)
    ≡ run (some queue) heap (put (job 6 1) ∷ put (job 5 3) ∷ calls)
run-swap_example =
    run-swap queue jobs heap (job 5 3) (job 6 1) calls queue-Holds (omega arith) (λ e. omega arith)
      refl refl calls-Sized
