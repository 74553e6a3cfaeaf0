-- ===== src/SemJobqueue/Moves/Dequeuing.antt =====
-- The steps of sem_jobqueue_dequeue.
use csc.Base.{
  ℕ, suc, ◌+◌, ◌-◌, ◌≤◌, ◌<◌, ◌≡◌, refl, subst, Bool, none, some, List, [], ◌∷◌, length, arith, inl,
  inr,
}
use mathlib.Core.Option.{some-injective}
use csc.Job.{Job, Ptr, Heap}
use csc.Job.Deliver.{Delivers, target}
use csc.PriJobqueue.{PriJobqueue}
use csc.PriJobqueue.Spec.{pop, pop-Picks}
use csc.PriJobqueue.Inv.{Holds}
use csc.PriJobqueue.Refine.{Dequeued, Picks-IsQueued}
use csc.PriJobqueue.Drain.{length-Picks}
use csc.Ipc.{Ipc}
use csc.IpcJobqueue
use csc.IpcJobqueue.Laws.{dequeue-Dequeued}
use csc.SemJobqueue.{Shared, Wait, DequeuePc, rest, dequeuing, Outcome, dequeue_step}
use csc.SemJobqueue.Processes.{IsSizedHeap, CanReceive}
use csc.SemJobqueue.Invariant.{taken, IsReady}
use csc.SemJobqueue.Moves.{Before, moves, Moved, waits, Delivers-sized, quiet, here}

-- The others are left where the job at hand was delivered.
others_left :
    (m : Job) (others : List Job) (q : PriJobqueue) (dst : Ptr) (h : Heap) (r : Ptr)
    (q' : PriJobqueue) (h' : Heap)
    → CanReceive h dst
    → Dequeued (some (m, others)) q dst h (r, some q', h')
    → Holds q' others
others_left m others q none h r q' h' given (inr (_, refused, _, _), _) = cc
others_left m others q (some d) h r q' h' given (inr (n, _, _, _), _) = cc
others_left m others q dst h r q' h' given (inl (e, _, _), inl (n, _)) = cc
others_left m others q dst h r q' h' given (inl v, inr (n, (u, same, holds))) =
    let here : u ≡ q' = cc in subst (λ x. Holds x others) here holds

-- A dequeue to a given job takes a job out, unless there is none.
dequeued :
    (q : PriJobqueue) (live : List Job) (dst : Ptr) (h : Heap) (r : Ptr) (q' : PriJobqueue)
    (h' : Heap)
    → Holds q live
    → CanReceive h dst
    → IsSizedHeap h
    → Dequeued (pop live) q dst h (r, some q', h')
    → (left : List Job) × Holds q' left × (length left ≡ length live - 1) × IsSizedHeap h'
unfolding pop
dequeued q [] dst h r q' h' holds given sized d =
    let here : q ≡ q' = cc in
    let memory : h ≡ h' = cc in
    ([], subst (λ u. Holds u []) here holds, refl, subst IsSizedHeap memory sized)
dequeued q (x ∷ xs) dst h r q' h' holds given sized d =
    let (m, others, e, p) = pop-Picks x xs in
    let d' = subst (λ u. Dequeued u q dst h (r, some q', h')) e d in
    (
      others,
      others_left m others q dst h r q' h' given d',
      omega (arith, length-Picks (x ∷ xs) m others p),
      Delivers-sized m dst h r h' (Picks-IsQueued (x ∷ xs) m others holds.queued p).labelled.size
          sized d'.0,
    )

handed :
    (m : Job) (dst : Ptr) (h : Heap) (r : Ptr) (h' : Heap)
    → CanReceive h dst
    → Delivers m dst h (r, h')
    → (r ≡ some (target dst h)) × (h'.cell (target dst h) ≡ m)
handed m dst h r h' given (inl (same, copy, _)) = (same, copy)
handed m none h r h' given (inr (_, refused, _, _)) = cc
handed m (some d) h r h' given (inr (n, _, _, _)) = cc

-- Where there is a job, and memory for it, the next one is copied to the caller.
pub finds :
    (q : PriJobqueue) (live : List Job) (dst : Ptr) (h : Heap) (r : Ptr) (q' : PriJobqueue)
    (h' : Heap)
    → 0 < length live
    → CanReceive h dst
    → Dequeued (pop live) q dst h (r, some q', h')
    → (m : Job) × (others : List Job) × (pop live ≡ some (m, others))
      × (r ≡ some (target dst h))
      × (h'.cell (target dst h) ≡ m)
      × Holds q' others
unfolding pop
finds q [] dst h r q' h' some_jobs given v = absurd (omega arith)
finds q (x ∷ xs) dst h r q' h' some_jobs given v =
    let (m, others, e, p) = pop-Picks x xs in
    let v' = subst (λ u. Dequeued u q dst h (r, some q', h')) e v in
    let left = others_left m others q dst h r q' h' given v' in
    let (same, copy) = handed m dst h r h' given v'.0 in (m, others, e, same, copy, left)

module _ (o : ℕ) (strict : Bool) (live : List Job) (surplus : ℕ) (s : Shared) (h : Heap)
    (b : Before o strict live surplus s h) where
  dequeue_work-Moved :
      (i : Ipc) (dst : Ptr)
      → i.addr ≡ o
      → 0 < length live + surplus
      → CanReceive h dst
      → let (r, t, h') = IpcJobqueue.dequeue (some i) dst s.system h in
        Moved o strict
          (length live + surplus)
          s
          (dequeuing (DequeuePc.work dst))
          (record s { system = t }, h', dequeuing (DequeuePc.post_mutex r))
  dequeue_work-Moved i dst at some_job given =
      let d = (dequeue-Dequeued i live dst s.system h (here b i at)).0 in
      let (left, there, fewer, sized') =
        dequeued (s.system.content i.addr) live dst h _ _ _ (here b i at) given b.sized d in
      record {
        live = left;
        surplus = surplus - (1 - length live);
        holds =
            subst (λ a. Holds ((IpcJobqueue.dequeue (some i) dst s.system h).1.content a) left) at
              there;
        supply = omega (arith, fewer, some_job);
        exact = λ st. omega (arith, b.exact st);
        sized = sized';
        ready = tt;
      }

  pub dequeue_step-Moved :
      (w : Wait) (i : Ipc) (p : DequeuePc) (out : Outcome)
      → i.addr ≡ o
      → taken (dequeuing p) ≤ length live + surplus
      → IsReady strict h (dequeuing p)
      → dequeue_step w i s h p ≡ some out
      → Moved o strict (length live + surplus) s (dequeuing p) out
  unfolding dequeue_step
  dequeue_step-Moved w i (DequeuePc.wait_full dst) out at supply ready e =
      waits w s.full _ _ out e (quiet b _ s (rest _) refl refl tt) (λ v f.
        quiet b _ (record s { full = v }) (dequeuing (DequeuePc.wait_mutex dst)) refl
          (omega (arith, f)) ready)
  dequeue_step-Moved w i (DequeuePc.wait_mutex dst) out at supply ready e =
      waits w s.mutex _ _ out e (quiet b _ s (dequeuing DequeuePc.undo) refl refl tt)
        (λ v f. quiet b _ (record s { mutex = v }) (dequeuing (DequeuePc.work dst)) refl refl ready)
  dequeue_step-Moved w i DequeuePc.undo out at supply ready e =
      moves b _ (record s { full = suc s.full }) (rest _) e refl (omega arith) tt
  dequeue_step-Moved w i (DequeuePc.work dst) out at supply ready e =
      subst (Moved o strict _ s _) (some-injective _ _ e) (dequeue_work-Moved i dst at supply ready)
  dequeue_step-Moved w i (DequeuePc.post_mutex r) out at supply ready e =
      moves b _ (record s { mutex = suc s.mutex }) (dequeuing (DequeuePc.post_empty r)) e refl refl
        tt
  dequeue_step-Moved w i (DequeuePc.post_empty r) out at supply ready e =
      moves b _ (record s { empty = suc s.empty }) (rest _) e refl refl tt
