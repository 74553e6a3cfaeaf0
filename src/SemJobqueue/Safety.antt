-- ===== src/SemJobqueue/Safety.antt =====
-- What the semaphores of sem_jobqueue.c guarantee, in whatever order the processes take their steps
-- and whichever `sem_wait` is interrupted.
use csc.Base.{ℕ, ◌+◌, ◌≤◌, ◌<◌, ◌≡◌, ◌≢◌, refl, sym, ap, subst, ◌∙◌, Bool, some, [], arith}
use csc.Job.{Heap}
use csc.PriJobqueue.{job_buffer_size}
use csc.PriJobqueue.Inv.{Holds}
use csc.Ipc.{Ipc}
use csc.SemJobqueue.{
  Shared, Wait, Answer, DequeuePc, EnqueuePc, LookPc, Pc, rest, dequeuing, enqueuing, looking,
  Outcome, step, dequeue_step, enqueue_step, look_step,
}
use csc.SemJobqueue.Family.{two-le-sum, weight-le-sum, sum-zero, sum-member}
use csc.SemJobqueue.Processes.{Process, State, IsSizedHeap, Reach}
use csc.SemJobqueue.Invariant.{locked, taken, due, in_flight, total, IsReady, Inv}
use csc.SemJobqueue.Keeps.{Reach-Inv}

-- A new queue in the object at `o`: no jobs, `mutex` free, `full` at 0, `empty` at the space of the
-- queue, and no process in a call.
pub record Fresh (o : ℕ) (s : State) : Type 0 where
  pub holds : Holds (s.shared.system.content o) []
  pub mutex : s.shared.mutex ≡ 1
  pub full : s.shared.full ≡ 0
  pub empty : s.shared.empty ≡ job_buffer_size
  pub idle : (j : ℕ) → (s.procs j).pc ≡ rest Answer.nothing
  pub mapped : (j : ℕ) → (s.procs j).ijq.addr ≡ o
  pub sized : (j : ℕ) → IsSizedHeap (s.procs j).heap

pub Fresh-Inv : (n o : ℕ) (strict : Bool) (s : State) → Fresh o s → Inv n o strict s
Fresh-Inv n o strict s v = record {
  live = [];
  surplus = 0;
  holds = v.holds;
  lock = omega (arith, v.mutex, still locked refl);
  tokens = omega (arith, v.full, v.empty, still in_flight refl);
  supply = omega (arith, v.full, still taken refl, still due refl);
  exact = λ st. refl;
  mapped = v.mapped;
  sized = v.sized;
  ready = λ j. subst (IsReady strict (s.procs j).heap) (sym (v.idle j)) tt;
}
  where
    still : (w : Pc → ℕ) → w (rest Answer.nothing) ≡ 0 → total w n s ≡ 0
    still w e = sum-zero (λ (q : Process). w q.pc) n s.procs (λ j lt. ap w (v.idle j) ∙ e)

-- In every state that any number of processes reach from a new queue, by any interleaving of
-- their steps and with any waits interrupted, and where there is memory, given or allocated, for
-- the job of every dequeue, at most one of two different processes is between its `sem_wait` and
-- its `sem_post` of `mutex`.
pub mutual_exclusion :
    (n o : ℕ) (strict : Bool) (s u : State) (i j : ℕ)
    → Fresh o s
    → Reach n strict s u
    → i < n
    → j < n
    → i ≢ j
    → locked (u.procs i).pc + locked (u.procs j).pc ≤ 1
mutual_exclusion n o strict s u i j fresh reach hi hj ne =
    let v = Reach-Inv n o strict s u (Fresh-Inv n o strict s fresh) reach in
    omega (arith, v.lock, two-le-sum (λ (q : Process). locked q.pc) n i j u.procs hi hj ne)

-- A process in the critical section is never blocked.
locked-moves :
    (w : Wait) (i : Ipc) (s : Shared) (h : Heap) (p : Pc)
    → 0 < locked p
    → (out : Outcome) × (step w i s h p ≡ some out)
unfolding step dequeue_step enqueue_step look_step
locked-moves w i s h (rest a) l = absurd (omega arith)
locked-moves w i s h (dequeuing (DequeuePc.work dst)) l = (_, refl)
locked-moves w i s h (dequeuing (DequeuePc.post_mutex r)) l = (_, refl)
locked-moves w i s h (dequeuing (DequeuePc.wait_full dst)) l = absurd (omega arith)
locked-moves w i s h (dequeuing (DequeuePc.wait_mutex dst)) l = absurd (omega arith)
locked-moves w i s h (dequeuing DequeuePc.undo) l = absurd (omega arith)
locked-moves w i s h (dequeuing (DequeuePc.post_empty r)) l = absurd (omega arith)
locked-moves w i s h (enqueuing (EnqueuePc.work job)) l = (_, refl)
locked-moves w i s h (enqueuing EnqueuePc.post_mutex) l = (_, refl)
locked-moves w i s h (enqueuing (EnqueuePc.wait_empty job)) l = absurd (omega arith)
locked-moves w i s h (enqueuing (EnqueuePc.wait_mutex job)) l = absurd (omega arith)
locked-moves w i s h (enqueuing EnqueuePc.undo) l = absurd (omega arith)
locked-moves w i s h (enqueuing EnqueuePc.post_full) l = absurd (omega arith)
locked-moves w i s h (looking (LookPc.wait_mutex k)) l = absurd (omega arith)
locked-moves w i s h (looking (LookPc.work k)) l = (_, refl)
locked-moves w i s h (looking (LookPc.post_mutex a)) l = (_, refl)

-- In every state that processes reach from a new queue, where there is memory for the job of every
-- dequeue: while `mutex` is 0, some process is in the critical section, and that process can take its
-- next step, so that `mutex` is never lost.
pub mutex_never_lost :
    (n o : ℕ) (strict : Bool) (s u : State) (w : Wait)
    → Fresh o s
    → Reach n strict s u
    → u.shared.mutex ≡ 0
    → (i : ℕ) × (i < n)
      × (locked (u.procs i).pc ≡ 1)
      × ((out : Outcome) × (step w (u.procs i).ijq u.shared (u.procs i).heap (u.procs i).pc
            ≡ some out))
mutex_never_lost n o strict s u w fresh reach zero_mutex =
    let v = Reach-Inv n o strict s u (Fresh-Inv n o strict s fresh) reach in
    let (i, lt, here) =
      sum-member (λ (q : Process). locked q.pc) n u.procs (omega (arith, v.lock)) in
    (
      i,
      lt,
      omega (arith, v.lock, weight-le-sum (λ (q : Process). locked q.pc) n i u.procs lt, here),
      locked-moves w (u.procs i).ijq u.shared (u.procs i).heap (u.procs i).pc here,
    )
