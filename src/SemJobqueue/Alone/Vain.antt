-- ===== src/SemJobqueue/Alone/Vain.antt =====
-- Calls of sem_jobqueue.c that complete without any effect on the jobs of the queue.
use csc.Base.{
  ℕ, suc, zero, ◌+◌, ◌-◌, ◌≡◌, ◌<◌, refl, sym, ap, subst, ◌∙◌, true, false, none, some, List,
  length, arith,
}
use csc.Job.{Job, Ptr, Heap}
use csc.PriJobqueue.Spec.{push, accepts}
use csc.PriJobqueue.Inv.{Holds}
use csc.Ipc.{Ipc}
use csc.IpcJobqueue
use csc.IpcJobqueue.Laws.{enqueue-Holds, enqueue-null, dequeue-refused}
use csc.SemJobqueue.Refusal.{refusal}
use csc.SemJobqueue.{
  Shared, acquire, Call, dequeue, enqueue, look, Answer, pointer, nothing, rest, entry,
}
use csc.SemJobqueue.Alone.{
  alone, waits, Ending, granted, end_as, dequeue_documented, enqueue_documented, documented,
  alone-documented,
}

granted-positive : (n : ℕ) (next : Ending) → 0 < n → granted acquire n next ≡ next
unfolding granted
granted-positive zero next lt = absurd (omega arith)
granted-positive (suc n) next lt = refl

both_granted :
    (a b : ℕ)
    → 0 < a
    → 0 < b
    → granted acquire a (granted acquire b Ending.completes) ≡ Ending.completes
both_granted a b ha hb = granted-positive a _ ha ∙ granted-positive b Ending.completes hb

-- The queue does not take the job.
abbrev pub IsRefused : List Job → Heap → Ptr → Type 0
IsRefused live h none = Unit
IsRefused live h (some p) = (length (h.cell p).label ≡ 32) × (accepts live (h.cell p) ≡ false)

refused-Holds :
    (i : Ipc) (s : Shared) (h : Heap) (job : Ptr) (live : List Job)
    → Holds (s.system.content i.addr) live
    → IsRefused live h job
    → Holds ((IpcJobqueue.enqueue (some i) job s.system h).content i.addr) live
unfolding push
refused-Holds i s h none live holds refused =
    subst (λ q. Holds q live) (sym (enqueue-null i i.addr s.system h)) holds
refused-Holds i s h (some p) live holds (size, refused) =
    rw refused at (enqueue-Holds i live p s.system h holds size).0

-- A dequeue to new memory that `malloc` refuses, or an enqueue of a job that the queue refuses.
abbrev pub IsVain : List Job → Heap → Call → Type 0
IsVain live h (dequeue dst) = (dst ≡ none) × (h.refuse h.next ≡ true)
IsVain live h (enqueue job) = IsRefused live h job
IsVain live h (look l) = ⊥

-- What a dequeue or an enqueue returns that hands over no job.
pub empty_handed : Call → Answer
empty_handed (dequeue dst) = pointer none
empty_handed c = nothing

-- A semaphore of which the call takes one, and one to which it gives one.
abbrev pub source : Call → Shared → ℕ
source (dequeue dst) s = s.full
source c s = s.empty

abbrev pub sink : Call → Shared → ℕ
sink (dequeue dst) s = s.empty
sink c s = s.full

-- The call completes: the queue has the same jobs, the memory the same contents, and yet a
-- semaphore has given one to the other.
pub record Vain (i : Ipc) (live : List Job) (s : Shared) (h : Heap) (c : Call) : Type 0 where
  pub shared : Shared
  pub heap : Heap
  pub runs :
      alone (waits acquire acquire) i s h (entry true c)
      ≡ some (shared, heap, rest (empty_handed c))
  pub holds : Holds (shared.system.content i.addr) live
  pub cells : heap.cell ≡ h.cell
  pub taken : source c shared + 1 ≡ source c s
  pub posted : sink c shared ≡ sink c s + 1
  pub mutex : shared.mutex ≡ s.mutex

Vain-dequeue :
    (i : Ipc) (s : Shared) (h : Heap) (live : List Job)
    → Holds (s.system.content i.addr) live
    → h.refuse h.next ≡ true
    → 0 < s.mutex
    → 0 < s.full
    → Vain i live s h (dequeue none)
unfolding documented dequeue_documented end_as empty_handed refusal
Vain-dequeue i s h live holds refused free supply =
    let out = IpcJobqueue.dequeue (some i) none s.system h in
    let (null, same, cells) = dequeue-refused i live s.system h holds refused in
    let t : Shared = record {
      mutex = s.mutex;
      full = s.full - 1;
      empty = s.empty + 1;
      system = out.1;
    } in
    record {
      shared = t;
      heap = out.2;
      runs =
          alone-documented true acquire acquire i s h (dequeue none)
          ∙ ap (λ e. end_as e (s, h, rest (pointer none)) (t, out.2, rest (pointer out.0)))
              (both_granted s.full s.mutex supply free)
          ∙ ap (λ r. some (t, out.2, rest (pointer r))) null;
      holds = subst (λ q. Holds q live) (sym same) holds;
      cells = cells;
      taken = omega (arith, supply);
      posted = refl;
      mutex = refl;
    }

Vain-enqueue :
    (i : Ipc) (s : Shared) (h : Heap) (job : Ptr) (live : List Job)
    → Holds (s.system.content i.addr) live
    → IsRefused live h job
    → 0 < s.mutex
    → 0 < s.empty
    → Vain i live s h (enqueue job)
unfolding documented enqueue_documented end_as empty_handed refusal
Vain-enqueue i s h job live holds refused free space =
    let t : Shared = record {
      mutex = s.mutex;
      full = s.full + 1;
      empty = s.empty - 1;
      system = IpcJobqueue.enqueue (some i) job s.system h;
    } in
    record {
      shared = t;
      heap = h;
      runs =
          alone-documented true acquire acquire i s h (enqueue job)
          ∙ ap (λ e. end_as e (s, h, rest nothing) (t, h, rest nothing))
              (both_granted s.empty s.mutex space free);
      holds = refused-Holds i s h job live holds refused;
      cells = refl;
      taken = omega (arith, space);
      posted = refl;
      mutex = refl;
    }

-- Where `mutex` and the semaphore that the call waits for first are positive: a dequeue to new
-- memory that `malloc` refuses, and an enqueue of NULL or of a job that the queue does not take,
-- leave the jobs of the queue, the jobs in memory and `mutex` as they were, and return what a
-- call returns that hands over no job; and yet the dequeue has taken one from `full` and added
-- one to `empty`, and the enqueue has taken one from `empty` and added one to `full`.
pub IsVain-Vain :
    (i : Ipc) (s : Shared) (h : Heap) (c : Call) (live : List Job)
    → Holds (s.system.content i.addr) live
    → IsVain live h c
    → 0 < s.mutex
    → 0 < source c s
    → Vain i live s h c
IsVain-Vain i s h (dequeue none) live holds (e, refused) free supply =
    Vain-dequeue i s h live holds refused free supply
IsVain-Vain i s h (dequeue (some d)) live holds (e, refused) free supply = cc
IsVain-Vain i s h (enqueue job) live holds refused free space =
    Vain-enqueue i s h job live holds refused free space
IsVain-Vain i s h (look l) live holds never free supply = absurd never
