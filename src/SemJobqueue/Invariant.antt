-- ===== src/SemJobqueue/Invariant.antt =====
-- What the semaphores guarantee of the shared queue in every reachable state.
use csc.Base.{ℕ, ◌+◌, ◌≡◌, Bool, true, some, List, length, arith}
use csc.Job.{Job, Heap}
use csc.PriJobqueue.Inv.{Holds}
use csc.SemJobqueue.{
  Shared, Wait, DequeuePc, EnqueuePc, LookPc, Pc, rest, dequeuing, enqueuing, looking, dequeue_step,
  enqueue_step, look_step, await,
}
use csc.SemJobqueue.Family.{sum_below}
use csc.SemJobqueue.Processes.{State, CanReceive, IsGiven, IsSizedHeap}
use csc.Ipc.{Ipc}

-- Between the `sem_wait` and the `sem_post` of `mutex`.
abbrev pub locked : Pc → ℕ
locked (rest a) = 0
locked (dequeuing (DequeuePc.work dst)) = 1
locked (dequeuing (DequeuePc.post_mutex r)) = 1
locked (dequeuing p) = 0
locked (enqueuing (EnqueuePc.work job)) = 1
locked (enqueuing EnqueuePc.post_mutex) = 1
locked (enqueuing p) = 0
locked (looking (LookPc.wait_mutex l)) = 0
locked (looking p) = 1

-- Has taken from `full`, and the job is still in the queue.
abbrev pub taken : Pc → ℕ
taken (dequeuing (DequeuePc.wait_mutex dst)) = 1
taken (dequeuing DequeuePc.undo) = 1
taken (dequeuing (DequeuePc.work dst)) = 1
taken p = 0

-- Has put a job in the queue, and has still to post `full`.
abbrev pub due : Pc → ℕ
due (enqueuing EnqueuePc.post_mutex) = 1
due (enqueuing EnqueuePc.post_full) = 1
due p = 0

-- Has taken from `full` or `empty`, and has still to post one of them.
abbrev pub in_flight : Pc → ℕ
in_flight (rest a) = 0
in_flight (dequeuing (DequeuePc.wait_full dst)) = 0
in_flight (dequeuing p) = 1
in_flight (enqueuing (EnqueuePc.wait_empty job)) = 0
in_flight (enqueuing p) = 1
in_flight (looking p) = 0

abbrev pub total : (Pc → ℕ) → ℕ → State → ℕ
total w n s = sum_below (λ p. w p.pc) n s.procs

-- What a process in the middle of a call still has from the caller.
abbrev pub IsReady : Bool → Heap → Pc → Type 0
IsReady strict h (dequeuing (DequeuePc.wait_full dst)) = CanReceive h dst
IsReady strict h (dequeuing (DequeuePc.wait_mutex dst)) = CanReceive h dst
IsReady strict h (dequeuing (DequeuePc.work dst)) = CanReceive h dst
IsReady strict h (enqueuing (EnqueuePc.wait_empty job)) = IsGiven strict h job
IsReady strict h (enqueuing (EnqueuePc.wait_mutex job)) = IsGiven strict h job
IsReady strict h (enqueuing (EnqueuePc.work job)) = IsGiven strict h job
IsReady strict h p = Unit

-- `surplus` counts posts of `full` for jobs that the queue did not take.
pub record Inv (n o : ℕ) (strict : Bool) (s : State) : Type 0 where
  pub live : List Job
  pub surplus : ℕ
  pub holds : Holds (s.shared.system.content o) live
  pub lock : s.shared.mutex + total locked n s ≡ 1
  pub tokens : s.shared.full + s.shared.empty + total in_flight n s ≡ 128
  pub supply : length live + surplus ≡ s.shared.full + total taken n s + total due n s
  pub exact : strict ≡ true → surplus ≡ 0
  pub mapped : (j : ℕ) → (s.procs j).ijq.addr ≡ o
  pub sized : (j : ℕ) → IsSizedHeap (s.procs j).heap
  pub ready : (j : ℕ) → IsReady strict (s.procs j).heap (s.procs j).pc

-- One step changes the semaphores by what the process takes and owes.
pub record Effect (s : Shared) (p : Pc) (t : Shared) (p' : Pc) : Type 0 where
  pub lock : t.mutex + locked p' ≡ s.mutex + locked p
  pub tokens : t.full + t.empty + in_flight p' ≡ s.full + s.empty + in_flight p

pub dequeue_step-Effect :
    (w : Wait) (i : Ipc) (s t : Shared) (h h' : Heap) (d : DequeuePc) (p' : Pc)
    → dequeue_step w i s h d ≡ some (t, h', p')
    → Effect s (dequeuing d) t p'
unfolding dequeue_step await
dequeue_step-Effect w i s t h h' DequeuePc.undo p' e = ground arith
dequeue_step-Effect w i s t h h' d p' e = ground arith

pub enqueue_step-Effect :
    (w : Wait) (i : Ipc) (s t : Shared) (h h' : Heap) (d : EnqueuePc) (p' : Pc)
    → enqueue_step w i s h d ≡ some (t, h', p')
    → Effect s (enqueuing d) t p'
unfolding enqueue_step await
enqueue_step-Effect w i s t h h' EnqueuePc.undo p' e = ground arith
enqueue_step-Effect w i s t h h' d p' e = ground arith

pub look_step-Effect :
    (w : Wait) (i : Ipc) (s t : Shared) (h h' : Heap) (d : LookPc) (p' : Pc)
    → look_step w i s h d ≡ some (t, h', p')
    → Effect s (looking d) t p'
unfolding look_step await
look_step-Effect w i s t h h' (LookPc.post_mutex a) p' e = ground arith
look_step-Effect w i s t h h' d p' e = ground arith
