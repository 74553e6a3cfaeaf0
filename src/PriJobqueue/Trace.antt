-- ===== src/PriJobqueue/Trace.antt =====
-- A client's calls on one queue, and what it sees of them: the code against the abstract queue.
use csc.Base.{
  ℕ, Bool, ◌≡◌, refl, false, ap, ap₂, Option, none, some, List, [], ◌∷◌, arith, length, All, inl,
  inr,
}
use csc.Job.{Job, Ptr, Heap, write}
use csc.PriJobqueue.{PriJobqueue, dequeue, enqueue, peek, is_empty, is_full, size, space}
use csc.PriJobqueue.Looks.{Peeked, peek_refines, looks_refine, empty_of, full_of, size_of, space_of}
use csc.PriJobqueue.Spec.{pop, push}
use csc.PriJobqueue.Inv.{Holds}
use csc.PriJobqueue.Refine.{Dequeued, dequeue_refines, enqueue_refines}

-- The calls: of `pri_jobqueue_enqueue`, of `pri_jobqueue_dequeue`, of `pri_jobqueue_peek`, and of
-- the four functions that measure the queue.
pub data Op : Type 0 where
  put : Job → Op
  get : Op
  top : Op
  measure : Op

-- What a call lets the client see: the job that it got, if any; or whether the queue is empty,
-- whether it is full, its size and its space.
pub data Seen : Type 0 where
  handed : Option Job → Seen
  told : Bool → Bool → ℕ → ℕ → Seen

-- The job that a caller finds behind the pointer it got.
unfoldable pub received : Ptr → Heap → Option Job
received none h = none
received (some p) h = some (h.cell p)

unfoldable pub measured : Option PriJobqueue → Seen
measured pq = told (is_empty pq) (is_full pq) (size pq) (space pq)

-- The client prepares the job to enqueue at address 0, and has jobs handed over at address 1.
pub run : Option PriJobqueue → Heap → List Op → List Seen
run pq h [] = []
run pq h (put j ∷ ops) = run (enqueue pq (some 0) (write h 0 j)) (write h 0 j) ops
run pq h (get ∷ ops) =
    let (r, pq', h') = dequeue pq (some 1) h in handed (received r h') ∷ run pq' h' ops
run pq h (top ∷ ops) = let (r, h') = peek pq (some 1) h in handed (received r h') ∷ run pq h' ops
run pq h (measure ∷ ops) = measured pq ∷ run pq h ops

unfoldable pub answer : Option (Job × List Job) → Option Job
answer none = none
answer (some (m, rest)) = some m

unfoldable pub left : List Job → Option (Job × List Job) → List Job
left live none = live
left live (some (m, rest)) = rest

unfoldable pub measured_list : List Job → Seen
measured_list live =
    told (empty_of (some live)) (full_of (some live)) (size_of (some live)) (space_of (some live))

-- The same calls on the abstract queue.
unfoldable pub spec_run : List Job → List Op → List Seen
spec_run live [] = []
spec_run live (put j ∷ ops) = spec_run (push live j) ops
spec_run live (get ∷ ops) = handed (answer (pop live)) ∷ spec_run (left live (pop live)) ops
spec_run live (top ∷ ops) = handed (answer (pop live)) ∷ spec_run live ops
spec_run live (measure ∷ ops) = measured_list live ∷ spec_run live ops

-- The label of a job is an array of 32 bytes.
abbrev pub Sized : Op → Type 0
Sized (put j) = length j.label ≡ 32
Sized get = Unit
Sized top = Unit
Sized measure = Unit

-- After a dequeue that is served: the caller has the job, and the queue holds what is left.
pub record Served (live : List Job) (found : Option (Job × List Job)) (r : Ptr)
    (pq : Option PriJobqueue) (h : Heap) : Type 0 where
  pub seen : received r h ≡ answer found
  pub queue : PriJobqueue
  pub same : pq ≡ some queue
  pub holds : Holds queue (left live found)

-- A dequeue that cannot fail for want of memory.
pub serve :
    (q : PriJobqueue) (live : List Job) (dst : Ptr) (h : Heap) (found : Option (Job × List Job))
    (out : Ptr × Option PriJobqueue × Heap)
    → (dst ≡ none → h.refuse h.next ≡ false)
    → Holds q live
    → Dequeued found q dst h out
    → Served live found out.0 out.1 out.2
unfolding received answer left
serve q live dst h none out granted holds v = record {
  seen = ap (λ o. received o.0 o.2) v;
  queue = q;
  same = ap (λ o. o.1) v;
  holds = holds;
}
serve q live dst h (some (m, rest)) (none, pq, h') granted holds (v, e) = elim v [
  | inl x ↦ cc
  | inr x ↦ cc (granted x.0)
]
serve q live dst h (some (m, rest)) (some p, pq, h') granted holds (v, e) = elim e [
  | inl x ↦ cc
  | inr x ↦ record {
    seen = elim v [ inl y ↦ ground arith | inr y ↦ cc ];
    queue = x.1.0;
    same = x.1.1;
    holds = x.1.2;
  }
]

-- A peek that cannot fail for want of memory.
pub saw-answer :
    (found : Option (Job × List Job)) (dst : Ptr) (h : Heap) (r : Ptr) (h' : Heap)
    → (dst ≡ none → h.refuse h.next ≡ false)
    → Peeked found dst h (r, h')
    → received r h' ≡ answer found
unfolding received answer
saw-answer none dst h r h' given saw = ap (λ (o : Ptr × Heap). received o.0 o.1) saw
saw-answer (some (m, others)) dst h none h' given saw = elim saw [
  | inl x ↦ cc
  | inr x ↦ cc (given x.0)
]
saw-answer (some (m, others)) dst h (some p) h' given saw = elim saw [
  | inl x ↦ ground arith
  | inr x ↦ cc
]

measured-list :
    (q : PriJobqueue) (live : List Job) (h : Heap)
    → Holds q live
    → measured (some q) ≡ measured_list live
unfolding measured measured_list
measured-list q live h holds =
    let (e, f, n, m, _) = looks_refine (some q) (some live) none h holds in cc (e, f, n, m)

-- From a queue that holds the jobs `live`, every sequence of enqueues of jobs with labels of 32
-- bytes, of dequeues and of looks at the queue returns what the abstract queue of `live` returns.
pub run_refines :
    (ops : List Op) (q : PriJobqueue) (live : List Job) (h : Heap)
    → Holds q live
    → All Sized ops
    → run (some q) h ops ≡ spec_run live ops
unfolding run spec_run
run_refines [] q live h holds sized = refl
run_refines (top ∷ ops) q live h holds (_, sized) =
    let out = peek (some q) (some 1) h in
    let saw =
      saw-answer (pop live) (some 1) h out.0 out.1 (λ n. cc)
        (peek_refines q live (some 1) h holds) in
    ap₂ ◌∷◌ (ap handed saw) (run_refines ops q live out.1 holds sized)
run_refines (measure ∷ ops) q live h holds (_, sized) =
    ap₂ ◌∷◌ (measured-list q live h holds) (run_refines ops q live h holds sized)
run_refines (put j ∷ ops) q live h holds (size, sized) =
    let (q', e, holds') = enqueue_refines q live 0 (write h 0 j) holds size in
    rw e (run_refines ops q' (push live j) (write h 0 j) holds' sized)
run_refines (get ∷ ops) q live h holds (_, sized) =
    let s =
      serve q live (some 1) h (pop live) (dequeue (some q) (some 1) h) (λ n. cc) holds
        (dequeue_refines q live (some 1) h holds) in
    ap₂ ◌∷◌ (ap handed s.seen) (
      rw s.same (
        run_refines ops s.queue (left live (pop live)) (dequeue (some q) (some 1) h).2 s.holds
          sized))
