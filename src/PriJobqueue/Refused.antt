-- ===== src/PriJobqueue/Refused.antt =====
-- pri_jobqueue_dequeue to new memory that malloc refuses.
use csc.Base.{
  ℕ, ◌≡◌, refl, ap, ◌∙◌, true, Option, none, some, List, [], ◌∷◌, length, get_or, Bool-cases, inl,
  inr,
}
use csc.Job.{Job, Ptr, Heap, malloc, new, set_job, unused}
use csc.PriJobqueue.{
  PriJobqueue, dequeue, deliver, after_delivery, peek, peek_at, is_empty, find_highest_priority_job,
}
use csc.PriJobqueue.Spec.{pop, pop-Picks}
use csc.PriJobqueue.Inv.{Holds}
use csc.PriJobqueue.Refine.{dequeue_refines, dequeue-Picks, Dequeued}

deliver-refused :
    (j : Job) (h : Heap)
    → h.refuse h.next ≡ true
    → ((deliver j none h).0 ≡ none) × ((deliver j none h).1.cell ≡ h.cell)
unfolding deliver new malloc set_job
deliver-refused j h refused = rw refused (refl, refl)

unserved :
    (q : PriJobqueue) (k : ℕ) (out : Ptr × Heap)
    → out.0 ≡ none
    → let (r, pq, h) = after_delivery q k out in (r ≡ none) × (pq ≡ some q) × (h.cell ≡ out.1.cell)
unfolding after_delivery
unserved q k (none, h) e = (refl, refl, refl)
unserved q k (some p, h) e = cc

-- The queue and the jobs in memory are as before.
pub dequeue-refused :
    (q : PriJobqueue) (live : List Job) (h : Heap)
    → Holds q live
    → h.refuse h.next ≡ true
    → let (r, pq, h') = dequeue (some q) none h in (r ≡ none) × (pq ≡ some q) × (h'.cell ≡ h.cell)
unfolding after_delivery pop
dequeue-refused q [] h holds refused =
    let d : Dequeued (pop []) q none h (dequeue (some q) none h) =
      dequeue_refines q [] none h holds in
    (ap (λ o. o.0) d, ap (λ o. o.1) d, ap (λ o. o.2.cell) d)
dequeue-refused q (x ∷ xs) h holds refused =
    let (m, others, e, p) = pop-Picks x xs in
    let f = dequeue-Picks q x xs m others none h holds p in
    let (null, cells) = deliver-refused m h refused in
    let (a, b, c) = unserved q (length p.pre) (deliver m none h) null in
    (ap (λ o. o.0) f ∙ a, ap (λ o. o.1) f ∙ b, ap (λ o. o.2.cell) f ∙ (c ∙ cells))

peek_at-refused :
    (q : PriJobqueue) (k : Option ℕ) (h : Heap)
    → h.refuse h.next ≡ true
    → (peek_at q k none h).0 ≡ none
unfolding peek_at
peek_at-refused q none h refused = refl
peek_at-refused q (some k) h refused = (deliver-refused (get_or q.jobs k unused) h refused).0

-- A peek to new memory.
pub peek-refused :
    (q : PriJobqueue) (h : Heap) → h.refuse h.next ≡ true → (peek (some q) none h).0 ≡ none
unfolding peek
peek-refused q h refused = elim (Bool-cases (is_empty (some q))) [
  | inl e ↦ rw e refl
  | inr e ↦ rw e (peek_at-refused q (find_highest_priority_job q) h refused)
]
