-- ===== src/PriJobqueue.antt =====
-- pri_jobqueue.h and pri_jobqueue.c: a priority queue of jobs in an array of fixed size. A
-- `pri_jobqueue_t*` is an `Option PriJobqueue`: `none` is NULL. The slots of the queue are
-- distinct from the jobs that callers hold in the heap.
pub mod Spec
pub mod Find
pub mod Gap
pub mod Inv
pub mod Refine
pub mod Looks
pub mod Refused
pub mod Lanes
pub mod Trace
pub mod Drain
pub mod Fill
pub mod Life
mod Tests
use csc.Base.{
  ℕ, zero, suc, ◌+◌, ◌-◌, ◌^◌, Bool, true, false, ◌&&◌, ◌||◌, not, Option, none, some, List, [],
  ◌∷◌, ◌==◌, ltb, leb, if◌then◌else◌, get_or, set,
}
use csc.Job
use csc.Job.{Job, Ptr, Heap, write, unused, copied, has_full_label}

-- JOB_BUFFER_SIZE
abbrev pub job_buffer_size : ℕ
job_buffer_size = 128

-- struct pri_jobqueue. `size` is never negative.
pub record PriJobqueue : Type 0 where
  pub buf_size : ℕ
  pub size : ℕ
  pub jobs : List Job

pub is_empty : Option PriJobqueue → Bool
is_empty none = true
is_empty (some q) = q.size == 0

pub is_full : Option PriJobqueue → Bool
is_full none = true
is_full (some q) = leb q.buf_size q.size

pub size : Option PriJobqueue → ℕ
size none = 0
size (some q) = q.size

-- `buf_size - size`, which `size ≤ buf_size` keeps from being negative
pub space : Option PriJobqueue → ℕ
space none = 0
space (some q) = q.buf_size - q.size

-- `for (i = 0; i < buf_size; i++) job_init(&jobs[i])`, with `n` rounds left
pub init_loop : ℕ → ℕ → List Job → List Job
init_loop zero i jobs = jobs
init_loop (suc n) i jobs = init_loop n (i + 1) (set jobs i unused)

-- pri_jobqueue_init
pub init : Option PriJobqueue → Option PriJobqueue
init none = none
init (some q) =
    some
      (record { buf_size = job_buffer_size; size = 0; jobs = init_loop job_buffer_size 0 q.jobs })

-- pri_jobqueue_new, from what `malloc` returns: NULL, or memory that holds anything
pub new : Option PriJobqueue → Option PriJobqueue
new none = none
new (some raw) = init (some raw)

-- The test of the loop in `find_highest_priority_job`. An index of -1 is `none`.
pub improves : ℕ → ℕ → Option ℕ → Bool
improves p highest_pri none = not (p == 0)
improves p highest_pri (some k) = not (p == 0) && ltb p highest_pri

-- The loop, with `n` rounds left.
pub find_loop : ℕ → List Job → ℕ → Option ℕ → ℕ → Option ℕ
find_loop zero jobs i highest_pri_idx highest_pri = highest_pri_idx
find_loop (suc n) jobs i highest_pri_idx highest_pri =
    let p = (get_or jobs i unused).priority in
    let better = improves p highest_pri highest_pri_idx in
    find_loop n jobs (i + 1) (if better then some i else highest_pri_idx)
      (if better then p else highest_pri)

pub find_highest_priority_job : PriJobqueue → Option ℕ
find_highest_priority_job q =
    if is_empty (some q) then none else find_loop q.buf_size q.jobs 0 none (2 ^ 32 - 1)

-- How `pri_jobqueue_dequeue` and `pri_jobqueue_peek` hand a job of the queue to the caller: a new
-- job if `dst` is NULL, else a copy.
pub deliver : Job → Ptr → Heap → Ptr × Heap
deliver j none h = Job.new j.pid j.id j.priority (some j.label) h
deliver j (some d) h = if has_full_label j then (some d, write h d (copied j)) else (none, h)

-- `job_copy(&jobs[i + 1], &jobs[i])`
pub copy_slot : List Job → ℕ → List Job
copy_slot jobs i =
    let src = get_or jobs (i + 1) unused in
    if has_full_label src then set jobs i (copied src) else jobs

-- `for (i = …; i < size - 1; i++)`, with `n` rounds left
pub shift_loop : ℕ → ℕ → List Job → List Job
shift_loop zero i jobs = jobs
shift_loop (suc n) i jobs = shift_loop n (i + 1) (copy_slot jobs i)

-- The queue without the job at index `k`.
pub remove : PriJobqueue → ℕ → PriJobqueue
remove q k = record q {
  jobs = set (shift_loop (q.size - 1 - k) k q.jobs) (q.size - 1) unused;
  size = q.size - 1;
}

pub after_delivery : PriJobqueue → ℕ → Ptr × Heap → Ptr × Option PriJobqueue × Heap
after_delivery q k (none, h) = (none, some q, h)
after_delivery q k (some p, h) = (some p, some (remove q k), h)

pub dequeue_at : PriJobqueue → Option ℕ → Ptr → Heap → Ptr × Option PriJobqueue × Heap
dequeue_at q none dst h = (none, some q, h)
dequeue_at q (some k) dst h = after_delivery q k (deliver (get_or q.jobs k unused) dst h)

-- pri_jobqueue_dequeue
pub dequeue : Option PriJobqueue → Ptr → Heap → Ptr × Option PriJobqueue × Heap
dequeue none dst h = (none, none, h)
dequeue (some q) dst h =
    if is_empty (some q)
    then (none, some q, h)
    else dequeue_at q (find_highest_priority_job q) dst h

pub peek_at : PriJobqueue → Option ℕ → Ptr → Heap → Ptr × Heap
peek_at q none dst h = (none, h)
peek_at q (some k) dst h = deliver (get_or q.jobs k unused) dst h

-- pri_jobqueue_peek
pub peek : Option PriJobqueue → Ptr → Heap → Ptr × Heap
peek none dst h = (none, h)
peek (some q) dst h =
    if is_empty (some q) then (none, h) else peek_at q (find_highest_priority_job q) dst h

pub enqueue_job : PriJobqueue → Job → PriJobqueue
enqueue_job q j =
    if is_full (some q) || j.priority == 0
    then q
    else if has_full_label j
    then record q { jobs = set q.jobs q.size (copied j); size = q.size + 1 }
    else q

-- pri_jobqueue_enqueue
pub enqueue : Option PriJobqueue → Ptr → Heap → Option PriJobqueue
enqueue none job h = none
enqueue (some q) none h = some q
enqueue (some q) (some p) h = some (enqueue_job q (h.cell p))
