-- ===== src/PriJobqueue/Fill/New.antt =====
-- The other loop that pri_jobqueue.h shows for enqueuing: each job is made in new memory, which the
-- loop deletes.
use csc.Base.{
  ℕ, zero, suc, ◌+◌, ◌≤◌, ◌<◌, ◌≡◌, ◌≢◌, refl, ap, subst, ◌∙◌, true, false, Option, some, List, [],
  ◌∷◌, ◌++◌, arith, length, length-append, if◌then◌else◌, Bool-cases, inl, inr, leb,
}
use csc.Job.{Job, Ptr, Heap, new, delete}
use csc.Job.New.{with_new, new-granted, IsPlentiful, Returned, new-Returned}
use csc.PriJobqueue.{PriJobqueue, job_buffer_size, is_full, enqueue}
use csc.PriJobqueue.Spec.{push}
use csc.PriJobqueue.Inv.{Holds}
use csc.PriJobqueue.Refine.{observers_agree, enqueue_refines}
use csc.PriJobqueue.Fill.{
  Request, requested, requested-IsFit, fill, fill-Filled, Filled, Filled-full, Filled-step,
  push_fit,
}

-- `while (!pri_jobqueue_is_full(pjq)) { j = job_new(…); pri_jobqueue_enqueue(pjq, j); job_delete(j); … }`
-- with at most `fuel` rounds, from the `k`-th request of `args` on: the queue that it leaves, the
-- number of jobs made, and the memory.
pub fill_new : ℕ → (ℕ → Request) → ℕ → Option PriJobqueue → Heap → (Option PriJobqueue × ℕ) × Heap
fill_new zero args k pq h = ((pq, k), h)
fill_new (suc fuel) args k pq h =
    let a = args k in
    let (j, h') = new a.pid a.id a.priority a.label h in
    let rest = fill_new fuel args (k + 1) (enqueue pq j h') (delete j h') in
    if is_full pq then ((pq, k), h) else rest

-- One round: the queue holds the requested job, and the memory is given back.
round :
    (q : PriJobqueue) (live : List Job) (a : Request) (h : Heap)
    → Holds q live
    → a.priority ≢ 0
    → length live < job_buffer_size
    → IsPlentiful h
    → let (j, h') = new a.pid a.id a.priority a.label h in
      (q' : PriJobqueue) × (enqueue (some q) j h' ≡ some q')
      × Holds q' (live ++ (requested a ∷ []))
      × Returned h (delete j h')
round q live a h holds ranked below plenty =
    let fit = requested-IsFit a ranked in
    let made = new-granted a.pid a.id a.priority a.label h (plenty.granted h.next) in
    let h' = with_new (requested a) h in
    let there : h'.cell h.next ≡ requested a = ground arith in
    let (q', e, holds') =
      enqueue_refines q live h.next h' holds (ap (λ j. length j.label) there ∙ fit.size) in
    (
      q',
      ap (λ (o : Ptr × Heap). enqueue (some q) o.0 o.1) made ∙ e,
      subst (Holds q') (ap (push live) there ∙ push_fit live (requested a) below fit) holds',
      new-Returned a.pid a.id a.priority a.label h plenty,
    )

fill_new-Filled :
    (fuel : ℕ) (args : ℕ → Request) (k : ℕ) (q : PriJobqueue) (live : List Job) (h : Heap)
    → Holds q live
    → ((i : ℕ) → (args i).priority ≢ 0)
    → job_buffer_size ≤ length live + fuel
    → IsPlentiful h
    → let (out, h') = fill_new fuel args k (some q) h in
      Filled live (λ i. requested (args i)) k out × ((p : ℕ) → h'.live p ≡ h.live p)
unfolding fill_new
fill_new-Filled zero args k q live h holds ranked enough plenty =
    (Filled-full q live (λ i. requested (args i)) k holds (omega arith), λ p. refl)
fill_new-Filled (suc fuel) args k q live h holds ranked enough plenty =
    elim (Bool-cases (leb 128 (length live))) [
      | inl e ↦
          let full : is_full (some q) ≡ true = (observers_agree q live holds).1 ∙ e in
          rw full (Filled-full q live (λ i. requested (args i)) k holds (ground arith), λ p. refl)
      | inr e ↦
          let room : is_full (some q) ≡ false = (observers_agree q live holds).1 ∙ e in
          let below : length live < job_buffer_size = ground arith in
          let (q', f, holds', back) = round q live (args k) h holds (ranked k) below plenty in
          let (filled, kept) =
            fill_new-Filled fuel args (k + 1) q' (live ++ (requested (args k) ∷ [])) _ holds' ranked
              (omega (arith, length-append live (requested (args k) ∷ []))) back.plenty in
          rw (room, f)
            (Filled-step live (λ i. requested (args i)) k _ below filled, λ p. kept p ∙ back.live p)
    ]

-- With at least as many rounds as there are free slots, requests whose priority is not 0, and
-- where `malloc` does not fail, both documented loops that enqueue while the queue is not full,
-- the one that sets a local job for each request and the one that makes a new job, enqueues it
-- and deletes it, end with a full queue; they have made as many jobs as there were free slots,
-- and the queue holds these behind the jobs that it held, each with its label cut or padded to 31
-- characters; and at the end of the second just that memory is in use which was before.
pub both_loops_fill :
    (fuel : ℕ) (args : ℕ → Request) (k : ℕ) (q : PriJobqueue) (live : List Job) (h : Heap)
    → Holds q live
    → ((i : ℕ) → (args i).priority ≢ 0)
    → job_buffer_size ≤ length live + fuel
    → IsPlentiful h
    → let jobs : ℕ → Job = λ i. requested (args i) in
      let (out, h') = fill_new fuel args k (some q) h in
      Filled live jobs k (fill fuel args k (some q) h)
      × Filled live jobs k out
      × ((p : ℕ) → h'.live p ≡ h.live p)
both_loops_fill fuel args k q live h holds ranked enough plenty =
    let (filled, kept) = fill_new-Filled fuel args k q live h holds ranked enough plenty in
    (fill-Filled fuel args k q live h holds ranked enough, filled, kept)
