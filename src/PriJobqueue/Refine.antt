-- ===== src/PriJobqueue/Refine.antt =====
-- The functions of pri_jobqueue.c do to the array what the abstract queue does to its list.
use csc.Base.{
  ℕ, suc, ◌+◌, ◌-◌, ◌<◌, ◌≡◌, ◌≢◌, refl, sym, ap, subst, ◌∙◌, true, false, Option, none, some, List,
  [], ◌∷◌, ◌++◌, append_assoc, arith, length, length-append, replicate, get_or, get_or-append, set,
  set-append, All, All-append, All-right, ◌⊎◌, inl, inr, Bool-cases, ◌==◌, if◌then◌else◌, leb,
}
use csc.Job.{Job, Ptr, Heap, unused, has_full_label, copied}
use csc.Job.Copy.{copied_self}
use csc.PriJobqueue.{
  PriJobqueue, job_buffer_size, init_loop, init, is_empty, is_full, size, space, remove, deliver,
  dequeue, dequeue_at, after_delivery, enqueue, enqueue_job,
}
use csc.PriJobqueue.Spec.{pop, push, accepts, Picks, pop-Picks}
use csc.Job.Deliver.{Delivers}
use csc.PriJobqueue.Inv.{
  Holds, IsQueued, init_loop-append, remove-Holds, find-Picks, deliver-Delivers,
}

-- `pri_jobqueue_init` makes a queue that holds no jobs, whatever its array of 128 jobs, its size
-- and its buffer size held.
pub init-Holds :
    (raw : PriJobqueue)
    → length raw.jobs ≡ job_buffer_size
    → (q : PriJobqueue) × (init (some raw) ≡ some q) × Holds q []
unfolding init
init-Holds raw h = (
  _,
  refl,
  record {
    whole = refl;
    count = refl;
    fits = omega arith;
    slots =
        subst (λ n. init_loop n 0 raw.jobs ≡ replicate n unused) h (init_loop-append raw.jobs []);
    queued = tt;
  },
)

-- On a queue that holds the jobs `live`, `pri_jobqueue_is_empty`, `_is_full`, `_size` and
-- `_space` say of the array what is true of `live`.
pub observers_agree :
    (q : PriJobqueue) (live : List Job)
    → Holds q live
    → (is_empty (some q) ≡ (length live == 0))
      × (is_full (some q) ≡ leb job_buffer_size (length live))
      × (size (some q) ≡ length live)
      × (size (some q) + space (some q) ≡ job_buffer_size)
unfolding is_empty is_full size space
observers_agree q live h = ground (arith, h.whole, h.count, h.fits)

-- A job written behind the others joins the abstract queue at its end.
add-Holds :
    (q : PriJobqueue) (live : List Job) (j : Job)
    → Holds q live
    → length live < job_buffer_size
    → IsQueued j
    → Holds (record q { jobs = set q.jobs q.size j; size = q.size + 1 }) (live ++ (j ∷ []))
add-Holds q live j h below fit = record {
  whole = h.whole;
  count = omega (arith, h.count, longer);
  fits = omega (arith, longer);
  slots = rw h.count (
      rw h.slots (
        rw room (
          set-append live (replicate (job_buffer_size - length (live ++ (j ∷ []))) unused) unused j
          ∙ sym (append_assoc live (j ∷ []) _))));
  queued = All-append IsQueued live (j ∷ []) h.queued (fit, tt);
}
  where
    longer : length (live ++ (j ∷ [])) ≡ length live + 1
    longer = length-append live (j ∷ [])

    room : job_buffer_size - length live ≡ suc (job_buffer_size - length (live ++ (j ∷ [])))
    room = omega (arith, longer)

-- What the code accepts is what the abstract queue accepts.
enqueue_job-accepts :
    (q : PriJobqueue) (live : List Job) (j : Job)
    → Holds q live
    → enqueue_job q j ≡ (
        if accepts live j
        then record q { jobs = set q.jobs q.size (copied j); size = q.size + 1 }
        else q)
unfolding enqueue_job accepts is_full has_full_label
enqueue_job-accepts q live j h = ground (arith, h.whole, h.count)

accepts-IsQueued :
    (live : List Job) (j : Job)
    → length j.label ≡ 32
    → accepts live j ≡ true
    → (length live < job_buffer_size) × IsQueued j
unfolding accepts
accepts-IsQueued live j size ok = ground arith

enqueue_job-Holds :
    (q : PriJobqueue) (live : List Job) (j : Job)
    → Holds q live
    → length j.label ≡ 32
    → Holds (enqueue_job q j) (push live j)
unfolding push
enqueue_job-Holds q live j h size =
    rw (enqueue_job-accepts q live j h) (elim (Bool-cases (accepts live j)) [
      | inl e ↦
          let (below, fit) = accepts-IsQueued live j size e in
          rw e (rw (copied_self j fit.labelled) (add-Holds q live j h below fit))
      | inr e ↦ rw e h
    ])

-- On a queue that holds the jobs `live`, `pri_jobqueue_enqueue` of a job whose label is an array
-- of 32 bytes adds the job at the end if there is room, its priority is not 0 and its label has
-- 31 characters; otherwise the queue holds the same jobs as before.
pub enqueue_refines :
    (q : PriJobqueue) (live : List Job) (p : ℕ) (h : Heap)
    → Holds q live
    → length (h.cell p).label ≡ 32
    → (q' : PriJobqueue) × (enqueue (some q) (some p) h ≡ some q') × Holds q' (push live (h.cell p))
unfolding enqueue
enqueue_refines q live p h holds size = (_, refl, enqueue_job-Holds q live (h.cell p) holds size)

-- Without a job, `pri_jobqueue_enqueue` leaves the queue as it is.
pub enqueue_null : (q : Option PriJobqueue) (h : Heap) → enqueue q none h ≡ q
unfolding enqueue
enqueue_null none h = refl
enqueue_null (some q) h = refl

-- What `pri_jobqueue_dequeue` has to do when the abstract queue answers with its next job and the
-- others, or has none.
abbrev pub Dequeued :
    Option (Job × List Job) → PriJobqueue → Ptr → Heap → Ptr × Option PriJobqueue × Heap → Type 0
Dequeued none q dst h out = out ≡ (none, some q, h)
Dequeued (some (m, rest)) q dst h (r, q', h') =
    Delivers m dst h (r, h')
    × (((r ≡ none) × (q' ≡ some q))
        ⊎ ((r ≢ none) × ((u : PriJobqueue) × (q' ≡ some u) × Holds u rest)))

pub slot-Picks :
    (q : PriJobqueue) (live : List Job) (m : Job) (rest : List Job)
    → Holds q live
    → (p : Picks live m rest) → get_or q.jobs (length p.pre) unused ≡ m
slot-Picks q live m rest h p =
    rw h.slots
      (rw p.whole (rw (append_assoc p.pre (m ∷ p.post) _) (get_or-append p.pre _ m unused)))

pub Picks-IsQueued :
    (live : List Job) (m : Job) (rest : List Job)
    → All IsQueued live
    → Picks live m rest
    → IsQueued m
Picks-IsQueued live m rest h p =
    (All-right IsQueued p.pre (m ∷ p.post) (subst (All IsQueued) p.whole h)).0

dequeue_at-Picks :
    (q : PriJobqueue) (live : List Job) (m : Job) (rest : List Job) (dst : Ptr) (h : Heap)
    → Holds q live
    → (p : Picks live m rest)
    → dequeue_at q (some (length p.pre)) dst h ≡ after_delivery q (length p.pre) (deliver m dst h)
unfolding dequeue_at
dequeue_at-Picks q live m rest dst h holds p =
    ap (λ j. after_delivery q (length p.pre) (deliver j dst h)) (slot-Picks q live m rest holds p)

after_delivery-Dequeued :
    (q : PriJobqueue) (live : List Job) (m : Job) (rest : List Job) (dst : Ptr) (h : Heap)
    → Holds q live
    → (p : Picks live m rest) (out : Ptr × Heap) → Delivers m dst h out
    → Dequeued (some (m, rest)) q dst h (after_delivery q (length p.pre) out)
unfolding after_delivery
after_delivery-Dequeued q live m rest dst h holds p (none, h') d = (d, inl (refl, refl))
after_delivery-Dequeued q live m rest dst h holds p (some a, h') d = (
  d,
  inr (
    λ e. cc,
    (
      remove q (length p.pre),
      refl,
      subst (Holds (remove q (length p.pre))) (sym p.others)
          (remove-Holds q p.pre m p.post (subst (Holds q) p.whole holds)),
    ),
  ),
)

-- Where there are jobs, `pri_jobqueue_dequeue` delivers the pick and takes it out if that succeeds.
pub dequeue-Picks :
    (q : PriJobqueue) (x : Job) (xs : List Job) (m : Job) (rest : List Job) (dst : Ptr) (h : Heap)
    → Holds q (x ∷ xs)
    → (p : Picks (x ∷ xs) m rest)
    → dequeue (some q) dst h ≡ after_delivery q (length p.pre) (deliver m dst h)
unfolding dequeue is_empty
dequeue-Picks q x xs m rest dst h holds p =
    let some_jobs : (q.size == 0) ≡ false = ground (arith, holds.count) in
    rw some_jobs
      (rw (find-Picks q (x ∷ xs) m rest holds p) (dequeue_at-Picks q (x ∷ xs) m rest dst h holds p))

-- On a queue that holds the jobs `live`, `pri_jobqueue_dequeue` hands over the first of the jobs
-- of least priority number, to `dst` or to a new job where `dst` is NULL, and leaves the others
-- in order; on an empty queue, or when `dst` is NULL and there is no memory, it returns NULL and
-- leaves the queue as it is.
pub dequeue_refines :
    (q : PriJobqueue) (live : List Job) (dst : Ptr) (h : Heap)
    → Holds q live
    → Dequeued (pop live) q dst h (dequeue (some q) dst h)
unfolding dequeue is_empty pop
dequeue_refines q [] dst h holds =
    let empty : (q.size == 0) ≡ true = ground (arith, holds.count) in rw empty refl
dequeue_refines q (x ∷ xs) dst h holds =
    let (m, rest, e, p) = pop-Picks x xs in
    rw e (
      subst (Dequeued (some (m, rest)) q dst h) (sym (dequeue-Picks q x xs m rest dst h holds p)) (
        after_delivery-Dequeued q (x ∷ xs) m rest dst h holds p (deliver m dst h)
          (deliver-Delivers m dst h (Picks-IsQueued (x ∷ xs) m rest holds.queued p).labelled)))
