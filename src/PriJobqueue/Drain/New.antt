-- ===== src/PriJobqueue/Drain/New.antt =====
-- The other loop that pri_jobqueue.h shows for dequeuing: each job comes in new memory, which the
-- loop frees.
use csc.Base.{
  ℕ, zero, suc, ◌≤◌, ◌≡◌, refl, sym, ap, subst, ◌∙◌, true, false, Option, none, some, List, [], ◌∷◌,
  arith, length, ◌==◌, if◌then◌else◌,
}
use csc.Job.{Job, Ptr, Heap, delete}
use csc.Job.New.{IsPlentiful, Returned, new-Returned}
use csc.PriJobqueue.{PriJobqueue, is_empty, dequeue, deliver, after_delivery}
use csc.PriJobqueue.Spec.{Picks, pop-Picks}
use csc.PriJobqueue.Inv.{Holds}
use csc.PriJobqueue.Refine.{observers_agree, Dequeued, dequeue_refines, dequeue-Picks}
use csc.PriJobqueue.Trace.{received, left, Served, serve}
use csc.PriJobqueue.Drain.{drain, drain-Drained, Drained, Drained-empty, Drained-step, length-Picks}

-- `while (!pri_jobqueue_is_empty(pjq)) { j = pri_jobqueue_dequeue(pjq, NULL); …; job_delete(j); }`
-- with at most `fuel` rounds: the jobs that it sees, and the queue and the memory that it leaves.
pub drain_new : ℕ → Option PriJobqueue → Heap → List (Option Job) × Option PriJobqueue × Heap
drain_new zero pq h = ([], pq, h)
drain_new (suc fuel) pq h =
    let (r, pq', h') = dequeue pq none h in
    let rest = drain_new fuel pq' (delete r h') in
    if is_empty pq then ([], pq, h) else (received r h' ∷ rest.0, rest.1, rest.2)

after_delivery-heap :
    (q : PriJobqueue) (k : ℕ) (out : Ptr × Heap)
    → ((after_delivery q k out).0 ≡ out.0) × ((after_delivery q k out).2 ≡ out.1)
unfolding after_delivery
after_delivery-heap q k (none, h) = (refl, refl)
after_delivery-heap q k (some p, h) = (refl, refl)

delivered-Returned :
    (j : Job) (h : Heap)
    → IsPlentiful h
    → let (r, h') = deliver j none h in Returned h (delete r h')
unfolding deliver
delivered-Returned j h plenty = new-Returned j.pid j.id j.priority (some j.label) h plenty

-- One round leaves as much memory in use as there was.
round-Returned :
    (q : PriJobqueue) (x : Job) (xs : List Job) (m : Job) (others : List Job) (h : Heap)
    → Holds q (x ∷ xs)
    → Picks (x ∷ xs) m others
    → IsPlentiful h
    → let out = dequeue (some q) none h in Returned h (delete out.0 out.2)
round-Returned q x xs m others h holds p plenty =
    let e = dequeue-Picks q x xs m others none h holds p in
    let (r, heap) = after_delivery-heap q (length p.pre) (deliver m none h) in
    subst (λ (o : Ptr × Option PriJobqueue × Heap). Returned h (delete o.0 o.2)) (sym e)
      (subst (λ a. Returned h (delete a (after_delivery q (length p.pre) (deliver m none h)).2))
        (sym r)
        (subst (λ g. Returned h (delete (deliver m none h).0 g)) (sym heap)
          (delivered-Returned m h plenty)))

drain_new-Drained :
    (fuel : ℕ) (q : PriJobqueue) (live : List Job) (h : Heap)
    → Holds q live
    → length live ≤ fuel
    → IsPlentiful h
    → let (seen, pq, h') = drain_new fuel (some q) h in
      Drained live (seen, pq) × ((p : ℕ) → h'.live p ≡ h.live p)
unfolding drain_new left
drain_new-Drained zero q [] h holds enough plenty = (Drained-empty q holds, λ p. refl)
drain_new-Drained zero q (x ∷ xs) h holds enough plenty = absurd (omega arith)
drain_new-Drained (suc fuel) q [] h holds enough plenty =
    let none_left : is_empty (some q) ≡ true = (observers_agree q [] holds).0 in
    rw none_left (Drained-empty q holds, λ p. refl)
drain_new-Drained (suc fuel) q (x ∷ xs) h holds enough plenty =
    let (m, others, e, p) = pop-Picks x xs in
    let out = dequeue (some q) none h in
    let found : (length (x ∷ xs) == 0) ≡ false = ground arith in
    let some_left : is_empty (some q) ≡ false = (observers_agree q (x ∷ xs) holds).0 ∙ found in
    let s : Served (x ∷ xs) (some (m, others)) out.0 out.1 out.2 =
      serve q (x ∷ xs) none h (some (m, others)) out (λ n. plenty.granted h.next) holds
        (subst (λ o. Dequeued o q none h out) e (dequeue_refines q (x ∷ xs) none h holds)) in
    let back = round-Returned q x xs m others h holds p plenty in
    let fewer : length others ≤ fuel = omega (arith, length-Picks (x ∷ xs) m others p) in
    let (drained, kept) =
      drain_new-Drained fuel s.queue others (delete out.0 out.2) s.holds fewer back.plenty in
    rw some_left (
      Drained-step (x ∷ xs) m others out.0 out.1 out.2
          (λ u. let rest = drain_new fuel u (delete out.0 out.2) in (rest.0, rest.1)) p s drained,
      λ a. ap (λ u. (drain_new fuel u (delete out.0 out.2)).2.live a) s.same ∙ kept a ∙ back.live a,
    )

-- With at least as many rounds as there are jobs, and where `malloc` does not fail, both
-- documented loops that dequeue while the queue is not empty, the one that dequeues to a local
-- job and the one that dequeues to new memory and deletes each job that it got, end with an empty
-- queue; the jobs come out sorted by priority and, within each priority, in the order in which
-- they were enqueued; and at the end of the second just that memory is in use which was before.
pub both_loops_drain :
    (fuel : ℕ) (q : PriJobqueue) (live : List Job) (h : Heap)
    → Holds q live
    → length live ≤ fuel
    → IsPlentiful h
    → let (seen, pq, h') = drain_new fuel (some q) h in
      Drained live (drain fuel (some q) h)
      × Drained live (seen, pq)
      × ((p : ℕ) → h'.live p ≡ h.live p)
both_loops_drain fuel q live h holds enough plenty =
    let (drained, kept) = drain_new-Drained fuel q live h holds enough plenty in
    (drain-Drained fuel q live h holds enough, drained, kept)
