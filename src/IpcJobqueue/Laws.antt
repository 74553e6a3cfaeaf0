-- ===== src/IpcJobqueue/Laws.antt =====
-- The functions of ipc_jobqueue.c use the mapped object as the queue of pri_jobqueue.c.
use csc.Base.{
  ◌∙◌, ℕ, ◌≡◌, ◌≢◌, refl, sym, ap, subst, true, Option, none, some, List, arith, length, ◌==◌,
  ℕ_discrete, inl, inr, leb, ◌+◌,
}
use csc.Job.{Job, Ptr, Heap}
use csc.PriJobqueue.{PriJobqueue, job_buffer_size, space as queue_space}
use csc.PriJobqueue.Spec.{pop, push}
use csc.PriJobqueue.Inv.{Holds}
use csc.PriJobqueue.Refine.{
  observers_agree, Dequeued, dequeue_refines, enqueue_refines, enqueue_null,
}
use csc.PriJobqueue.Refused
use csc.PriJobqueue.Looks.{Peeked, peek_refines}
use csc.Ipc.{Ipc, System}
use csc.IpcJobqueue.{store, work, dequeue, enqueue, peek, is_empty, is_full, size, space}

pub store-here :
    (o : ℕ) (q : PriJobqueue) (s : System PriJobqueue) → (store o (some q) s).content o ≡ q
unfolding store
store-here o q s = ground arith

pub store-others :
    (o a : ℕ) (q : Option PriJobqueue) (s : System PriJobqueue)
    → a ≢ o
    → (store o q s).content a ≡ s.content a
unfolding store
store-others o a none s ne = refl
store-others o a (some q) s ne = ground arith

pub store-user :
    (o : ℕ) (q : Option PriJobqueue) (s : System PriJobqueue) → (store o q s).user ≡ s.user
unfolding store
store-user o none s = refl
store-user o (some q) s = refl

-- A queue operation that leaves a queue there leaves it in the object.
lift-Dequeued :
    (o : ℕ) (found : Option (Job × List Job)) (q : PriJobqueue) (dst : Ptr) (h : Heap)
    (t : System PriJobqueue) (out : Ptr × Option PriJobqueue × Heap)
    → Dequeued found q dst h out
    → Dequeued found q dst h (out.0, some ((store o out.1 t).content o), out.2)
lift-Dequeued o found q dst h t (r, some q', h') d =
    subst (λ u. Dequeued found q dst h (r, some u, h')) (sym (store-here o q' t)) d
lift-Dequeued o none q dst h t (r, none, h') d = cc (ap (λ u. u.1) d)
lift-Dequeued o (some (m, rest)) q dst h t (r, none, h') (d, e) = elim e [
  | inl x ↦ cc
  | inr x ↦ cc (x.1.1)
]

-- Where the mapped object holds the jobs `live`, `ipc_jobqueue_dequeue` does to it what
-- `pri_jobqueue_dequeue` has to do, and leaves every other object as it is.
pub dequeue-Dequeued :
    (i : Ipc) (live : List Job) (dst : Ptr) (s : System PriJobqueue) (h : Heap)
    → Holds (s.content i.addr) live
    → let (r, t, h') = dequeue (some i) dst s h in
      (Dequeued (pop live) (s.content i.addr) dst h (r, some (t.content i.addr), h'))
      × ((a : ℕ) → a ≢ i.addr → t.content a ≡ s.content a)
unfolding dequeue work
dequeue-Dequeued i live dst s h holds = (
  lift-Dequeued i.addr (pop live) (s.content i.addr) dst h (work i s) _
      (dequeue_refines (s.content i.addr) live dst h holds),
  λ a ne. store-others i.addr a _ (work i s) ne,
)

-- Where `dst` is NULL and there is no memory, the queue and the jobs of the process are as before.
pub dequeue-refused :
    (i : Ipc) (live : List Job) (s : System PriJobqueue) (h : Heap)
    → Holds (s.content i.addr) live
    → h.refuse h.next ≡ true
    → let (r, t, h') = dequeue (some i) none s h in
      (r ≡ none) × (t.content i.addr ≡ s.content i.addr) × (h'.cell ≡ h.cell)
unfolding dequeue work
dequeue-refused i live s h holds refused =
    let (null, same, cells) = Refused.dequeue-refused (s.content i.addr) live h holds refused in
    (
      null,
      ap (λ q. (store i.addr q (work i s)).content i.addr) same
          ∙ store-here i.addr (s.content i.addr) (work i s),
      cells,
    )

-- Where the mapped object holds the jobs `live`, `ipc_jobqueue_enqueue` of a job with a label of
-- 32 bytes adds it if it is acceptable, and leaves every other object as it is.
pub enqueue-Holds :
    (i : Ipc) (live : List Job) (p : ℕ) (s : System PriJobqueue) (h : Heap)
    → Holds (s.content i.addr) live
    → length (h.cell p).label ≡ 32
    → let t = enqueue (some i) (some p) s h in
      Holds (t.content i.addr) (push live (h.cell p))
      × ((a : ℕ) → a ≢ i.addr → t.content a ≡ s.content a)
unfolding enqueue work
enqueue-Holds i live p s h holds size =
    let (q', e, holds') = enqueue_refines (s.content i.addr) live p h holds size in
    (
      rw e (
          subst (λ u. Holds u (push live (h.cell p))) (sym (store-here i.addr q' (work i s)))
            holds'),
      λ a ne. store-others i.addr a _ (work i s) ne,
    )

-- Without a job to add, every object stays as it is.
pub enqueue-null :
    (i : Ipc) (a : ℕ) (s : System PriJobqueue) (h : Heap)
    → (enqueue (some i) none s h).content a ≡ s.content a
unfolding enqueue work store
enqueue-null i a s h =
    rw (enqueue_null (some (s.content i.addr)) h)
      (elim (ℕ_discrete a i.addr) [ yes same ↦ ground arith | no other ↦ ground arith ])

-- `ipc_jobqueue_space` changes no name, no object and no environment.
pub space_keeps :
    (i : Ipc) (s : System PriJobqueue)
    → let t = (space (some i) s).1 in
      (t.named ≡ s.named) × (t.content ≡ s.content) × (t.user ≡ s.user)
unfolding space work
space_keeps i s = (refl, refl, refl)

pub space_agrees :
    (i : Ipc) (live : List Job) (s : System PriJobqueue)
    → Holds (s.content i.addr) live
    → let (n, t) = space (some i) s in (length live + n ≡ job_buffer_size) × (t.content ≡ s.content)
unfolding space work
space_agrees i live s holds =
    let (e, f, n, m) = observers_agree (s.content i.addr) live holds in
    let left : length live + queue_space (some (s.content i.addr)) ≡ job_buffer_size =
      omega (arith, n, m) in
    (left, refl)

-- Where the mapped object holds the jobs `live`, `ipc_jobqueue_is_empty`, `_is_full`, `_size`,
-- `_space` and `_peek` answer of `live` and leave every object as it is.
pub looks_agree :
    (i : Ipc) (live : List Job) (dst : Ptr) (s : System PriJobqueue) (h : Heap)
    → Holds (s.content i.addr) live
    → (let (b, t) = is_empty (some i) s in (b ≡ (length live == 0)) × (t.content ≡ s.content))
      × (let (b, t) = is_full (some i) s in
          (b ≡ leb job_buffer_size (length live)) × (t.content ≡ s.content))
      × (let (n, t) = size (some i) s in (n ≡ length live) × (t.content ≡ s.content))
      × (let (n, t) = space (some i) s in
          (length live + n ≡ job_buffer_size) × (t.content ≡ s.content))
      × (let (r, t, h') = peek (some i) dst s h in
          Peeked (pop live) dst h (r, h') × (t.content ≡ s.content))
unfolding is_empty is_full size space peek work
looks_agree i live dst s h holds =
    let (e, f, n, m) = observers_agree (s.content i.addr) live holds in
    (
      (e, refl),
      (f, refl),
      (n, refl),
      space_agrees i live s holds,
      (peek_refines (s.content i.addr) live dst h holds, refl),
    )

-- A peek to new memory that `malloc` refuses.
pub peek-refused :
    (i : Ipc) (s : System PriJobqueue) (h : Heap)
    → h.refuse h.next ≡ true
    → (peek (some i) none s h).0 ≡ none
unfolding peek work
peek-refused i s h refused = Refused.peek-refused (s.content i.addr) h refused
