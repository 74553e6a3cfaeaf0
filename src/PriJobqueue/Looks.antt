-- ===== src/PriJobqueue/Looks.antt =====
-- The functions of pri_jobqueue.c that only look at the queue.
use csc.Base.{
  ℕ, ◌-◌, ◌∙◌, sym, Bool, ◌≡◌, refl, true, false, Option, none, some, List, [], ◌∷◌, arith, length,
  ◌==◌, leb,
}
use csc.Job.{Job, Ptr, Heap}
use csc.PriJobqueue.{PriJobqueue, job_buffer_size, is_empty, is_full, size, space, peek, peek_at}
use csc.PriJobqueue.Spec.{pop, pop-Picks}
use csc.Job.Deliver.{Delivers}
use csc.PriJobqueue.Inv.{Holds, find-Picks, deliver-Delivers}
use csc.PriJobqueue.Refine.{Picks-IsQueued, slot-Picks, observers_agree}

-- What `pri_jobqueue_peek` has to do: the same delivery, or NULL where there is no job.
abbrev pub Peeked : Option (Job × List Job) → Ptr → Heap → Ptr × Heap → Type 0
Peeked none dst h out = out ≡ (none, h)
Peeked (some (m, rest)) dst h out = Delivers m dst h out

-- On a queue that holds the jobs `live`, `pri_jobqueue_peek` hands over the job that
-- `pri_jobqueue_dequeue` would take, or NULL where there is none or `dst` is NULL and there is no
-- memory.
pub peek_refines :
    (q : PriJobqueue) (live : List Job) (dst : Ptr) (h : Heap)
    → Holds q live
    → Peeked (pop live) dst h (peek (some q) dst h)
unfolding peek peek_at is_empty pop
peek_refines q [] dst h holds =
    let empty : (q.size == 0) ≡ true = ground (arith, holds.count) in rw empty refl
peek_refines q (x ∷ xs) dst h holds =
    let (m, rest, e, p) = pop-Picks x xs in
    let some_jobs : (q.size == 0) ≡ false = ground (arith, holds.count) in
    rw e (
      rw some_jobs (
        rw (find-Picks q (x ∷ xs) m rest holds p) (
          rw (slot-Picks q (x ∷ xs) m rest holds p)
            (deliver-Delivers m dst h (Picks-IsQueued (x ∷ xs) m rest holds.queued p).labelled))))

-- What the functions say of the abstract queue. The NULL queue, `none`, is empty and full.
abbrev pub empty_of : Option (List Job) → Bool
empty_of none = true
empty_of (some []) = true
empty_of (some (j ∷ live)) = false

abbrev pub full_of : Option (List Job) → Bool
full_of none = true
full_of (some live) = leb job_buffer_size (length live)

abbrev pub size_of : Option (List Job) → ℕ
size_of none = 0
size_of (some live) = length live

abbrev pub space_of : Option (List Job) → ℕ
space_of none = 0
space_of (some live) = job_buffer_size - length live

abbrev pub next_of : Option (List Job) → Option (Job × List Job)
next_of none = none
next_of (some live) = pop live

-- The queue holds these jobs; or both are NULL.
abbrev pub Models : Option PriJobqueue → Option (List Job) → Type 0
Models none none = Unit
Models none (some live) = ⊥
Models (some q) none = ⊥
Models (some q) (some live) = Holds q live

pub empty_of-length : (live : List Job) → empty_of (some live) ≡ (length live == 0)
empty_of-length [] = refl
empty_of-length (j ∷ live) = ground arith

-- On a queue that holds the jobs `live`, and on NULL, the functions that only look answer of
-- `live`, and of no queue: `pri_jobqueue_is_empty` whether there is no job, `_is_full` whether
-- there are 128, `_size` how many there are and `_space` how many are missing to 128, with NULL
-- empty and full, of size and space 0; and `_peek` hands over the job that `pri_jobqueue_dequeue`
-- would take, or NULL where there is none or `dst` is NULL and there is no memory.
pub looks_refine :
    (pq : Option PriJobqueue) (jobs : Option (List Job)) (dst : Ptr) (h : Heap)
    → Models pq jobs
    → (is_empty pq ≡ empty_of jobs)
      × (is_full pq ≡ full_of jobs)
      × (size pq ≡ size_of jobs)
      × (space pq ≡ space_of jobs)
      × Peeked (next_of jobs) dst h (peek pq dst h)
unfolding is_empty is_full size space peek
looks_refine none none dst h m = (refl, refl, refl, refl, refl)
looks_refine none (some live) dst h m = absurd m
looks_refine (some q) none dst h m = absurd m
looks_refine (some q) (some live) dst h holds =
    let (e, f, n, m) = observers_agree q live holds in
    (
      e ∙ sym (empty_of-length live),
      f,
      n,
      omega (arith, m, n, holds.fits),
      peek_refines q live dst h holds,
    )
