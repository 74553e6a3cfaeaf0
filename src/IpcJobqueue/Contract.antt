-- ===== src/IpcJobqueue/Contract.antt =====
-- What ipc_jobqueue.h promises of the functions on a queue that is mapped, in terms of the list of
-- the jobs that the queue holds.
use csc.Base.{
  ℕ, ◌+◌, ◌≡◌, ◌≢◌, none, some, List, length, arith, ◌==◌, leb, if◌then◌else◌, ℕ_discrete,
}
use csc.Job.{Job, Ptr, Heap}
use csc.PriJobqueue.{PriJobqueue, job_buffer_size}
use csc.PriJobqueue.Spec.{pop, push}
use csc.PriJobqueue.Inv.{Holds}
use csc.PriJobqueue.Refine.{Dequeued}
use csc.PriJobqueue.Looks.{Peeked}
use csc.Ipc.{Ipc, System}
use csc.IpcJobqueue.{dequeue, enqueue, peek, is_empty, is_full, size, space}
use csc.IpcJobqueue.Laws.{dequeue-Dequeued, enqueue-Holds, enqueue-null, looks_agree}

-- No object but that at `o` has changed.
abbrev pub OnlyAt : ℕ → System PriJobqueue → System PriJobqueue → Type 0
OnlyAt o s t = (a : ℕ) → t.content a ≡ (if a == o then t.content o else s.content a)

-- The mapped object of `i` holds the jobs `live`; `dst` and `p` are the arguments of the calls.
pub record Contract (i : Ipc) (live : List Job) (dst : Ptr) (p : ℕ) (s : System PriJobqueue)
    (h : Heap) : Type 0 where
  pub dequeued :
      let (r, t, h') = dequeue (some i) dst s h in
      Dequeued (pop live) (s.content i.addr) dst h (r, some (t.content i.addr), h')
      × OnlyAt i.addr s t
  pub enqueued :
      let t = enqueue (some i) (some p) s h in
      Holds (t.content i.addr) (push live (h.cell p)) × OnlyAt i.addr s t
  pub enqueued_null : (a : ℕ) → (enqueue (some i) none s h).content a ≡ s.content a
  pub peeked :
      let (r, t, h') = peek (some i) dst s h in
      Peeked (pop live) dst h (r, h') × (t.content ≡ s.content)
  pub empty : let (b, t) = is_empty (some i) s in (b ≡ (length live == 0)) × (t.content ≡ s.content)
  pub full :
      let (b, t) = is_full (some i) s in
      (b ≡ leb job_buffer_size (length live)) × (t.content ≡ s.content)
  pub sized : let (n, t) = size (some i) s in (n ≡ length live) × (t.content ≡ s.content)
  pub spaced :
      let (n, t) = space (some i) s in (length live + n ≡ job_buffer_size) × (t.content ≡ s.content)

only_at :
    (o : ℕ) (s t : System PriJobqueue)
    → ((a : ℕ) → a ≢ o → t.content a ≡ s.content a)
    → OnlyAt o s t
only_at o s t others a = elim (ℕ_discrete a o) [
  | yes e ↦ ground arith
  | no ne ↦ ground (arith, others a ne)
]

-- Where the mapped object holds the jobs `live`, and the job to enqueue has a label of 32 bytes:
-- `ipc_jobqueue_dequeue` and `_peek` hand over the next job of `live`, and the one takes it out
-- and the other does not; `_enqueue` adds its job if that is acceptable, and changes nothing
-- without a job; `_is_empty`, `_is_full`, `_size` and `_space` answer of `live` and change no
-- object; and no function changes another object.
pub Holds-Contract :
    (i : Ipc) (live : List Job) (dst : Ptr) (p : ℕ) (s : System PriJobqueue) (h : Heap)
    → Holds (s.content i.addr) live
    → length (h.cell p).label ≡ 32
    → Contract i live dst p s h
Holds-Contract i live dst p s h holds size =
    let (taken, others) = dequeue-Dequeued i live dst s h holds in
    let (added, others') = enqueue-Holds i live p s h holds size in
    let (empty, full, sized, spaced, peeked) = looks_agree i live dst s h holds in
    record {
      dequeued = (taken, only_at i.addr s (dequeue (some i) dst s h).1 others);
      enqueued = (added, only_at i.addr s (enqueue (some i) (some p) s h) others');
      enqueued_null = λ a. enqueue-null i a s h;
      peeked = peeked;
      empty = empty;
      full = full;
      sized = sized;
      spaced = spaced;
    }
