-- ===== src/SemJobqueue/Completion.antt =====
-- Calls of sem_jobqueue.c come to an end: a run in which no process starts a call stops, and where
-- it cannot go on every call has returned, or waits for a job or for room that there is not.
use csc.Base.{
  ℕ, zero, suc, ◌+◌, ◌*◌, ◌≤◌, ◌<◌, ◌≡◌, ◌⊎◌, inl, inr, Bool, true, some, arith, subst, sym, ◌≢◌,
  ℕ_discrete,
}
use csc.Job.{Heap}
use csc.Ipc.{Ipc}
use csc.PriJobqueue.{PriJobqueue}
use csc.SemJobqueue.{
  Shared, Wait, Answer, DequeuePc, EnqueuePc, LookPc, Pc, rest, dequeuing, enqueuing, looking,
  await, step, dequeue_step, enqueue_step, look_step,
}
use csc.SemJobqueue.Family.{sum-le-times}
use csc.SemJobqueue.Processes.{Process, State, Step, Reach}
use csc.SemJobqueue.Invariant.{total}
use csc.SemJobqueue.Keeps.{go_on, total-go_on}
use csc.SemJobqueue.Stages.{IsActive, stage, resting, for_full, for_empty, active}
use csc.SemJobqueue.Safety.{Fresh}
use csc.SemJobqueue.Progress.{CanMove, IsHeldUp, no_deadlock}

-- The steps that a call has at most before it.
pub remaining : Pc → ℕ
remaining (rest a) = 0
remaining (dequeuing (DequeuePc.wait_full dst)) = 5
remaining (dequeuing (DequeuePc.wait_mutex dst)) = 4
remaining (dequeuing (DequeuePc.work dst)) = 3
remaining (dequeuing (DequeuePc.post_mutex r)) = 2
remaining (dequeuing (DequeuePc.post_empty r)) = 1
remaining (dequeuing DequeuePc.undo) = 1
remaining (enqueuing (EnqueuePc.wait_empty job)) = 5
remaining (enqueuing (EnqueuePc.wait_mutex job)) = 4
remaining (enqueuing (EnqueuePc.work job)) = 3
remaining (enqueuing EnqueuePc.post_mutex) = 2
remaining (enqueuing EnqueuePc.post_full) = 1
remaining (enqueuing EnqueuePc.undo) = 1
remaining (looking (LookPc.wait_mutex l)) = 3
remaining (looking (LookPc.work l)) = 2
remaining (looking (LookPc.post_mutex a)) = 1

-- Steps of the first `n` processes, `k` in number, with any waits interrupted and no new call.
pub data Run (n : ℕ) (s : State) : ℕ → State → Type 0 where
  still : Run n s 0 s
  on :
      {k : ℕ} {u : State} (i : ℕ) (w : Wait) {t : Shared} {h : Heap} {p : Pc}
      → Run n s k u
      → i < n
      → step w (u.procs i).ijq u.shared (u.procs i).heap (u.procs i).pc ≡ some (t, h, p)
      → Run n s (suc k) (go_on u i t h p)

dequeue_step-remaining :
    (w : Wait) (i : Ipc) (s t : Shared) (h h' : Heap) (d : DequeuePc) (p' : Pc)
    → dequeue_step w i s h d ≡ some (t, h', p')
    → remaining p' < remaining (dequeuing d)
unfolding dequeue_step await remaining
dequeue_step-remaining w i s t h h' d p' e = ground arith

enqueue_step-remaining :
    (w : Wait) (i : Ipc) (s t : Shared) (h h' : Heap) (d : EnqueuePc) (p' : Pc)
    → enqueue_step w i s h d ≡ some (t, h', p')
    → remaining p' < remaining (enqueuing d)
unfolding enqueue_step await remaining
enqueue_step-remaining w i s t h h' d p' e = ground arith

look_step-remaining :
    (w : Wait) (i : Ipc) (s t : Shared) (h h' : Heap) (d : LookPc) (p' : Pc)
    → look_step w i s h d ≡ some (t, h', p')
    → remaining p' < remaining (looking d)
unfolding look_step await remaining
look_step-remaining w i s t h h' d p' e = ground arith

-- Every step of a process brings its call nearer to the end.
step-remaining :
    (w : Wait) (i : Ipc) (s t : Shared) (h h' : Heap) (p p' : Pc)
    → step w i s h p ≡ some (t, h', p')
    → remaining p' < remaining p
unfolding step
step-remaining w i s t h h' (rest a) p' e = cc
step-remaining w i s t h h' (dequeuing d) p' e = dequeue_step-remaining w i s t h h' d p' e
step-remaining w i s t h h' (enqueuing d) p' e = enqueue_step-remaining w i s t h h' d p' e
step-remaining w i s t h h' (looking d) p' e = look_step-remaining w i s t h h' d p' e

Run-remaining :
    (n : ℕ) (u : State) (k : ℕ) (t : State)
    → Run n u k t
    → k + total remaining n t ≤ total remaining n u
Run-remaining n u _ _ Run.still = omega arith
Run-remaining n u _ _ (Run.on {k} {u = v} i w {t} {h} {p} run below e) = omega (
  arith,
  Run-remaining n u k v run,
  total-go_on remaining n i v t h p below,
  step-remaining w (v.procs i).ijq v.shared t (v.procs i).heap h (v.procs i).pc p e,
)

remaining-le : (p : Pc) → remaining p ≤ 5
unfolding remaining
remaining-le p = ground arith

pub Reach-Run :
    (n : ℕ) (strict : Bool) (s u : State) (k : ℕ) (t : State)
    → Reach n strict s u
    → Run n u k t
    → Reach n strict s t
Reach-Run n strict s u _ _ r Run.still = r
Reach-Run n strict s u _ _ r (Run.on {k} {u = v} i w run below e) =
    Reach.later (Reach-Run n strict s u k v r run) (Step.move i w below e)

-- A process is in no call, or its call waits for a job of an empty queue or for room in a full one.
abbrev pub IsSettled : PriJobqueue → Pc → Type 0
IsSettled q p = ((a : Answer) × (p ≡ rest a)) ⊎ IsHeldUp q p

module _ (n o : ℕ) (s u : State) (fresh : Fresh o s) (reach : Reach n true s u) where
  one_settles : (j : ℕ) → j < n → CanMove n u ⊎ IsSettled (u.shared.system.content o) (u.procs j).pc
  one_settles j below = elim (stage (u.procs j).pc) [
    | resting a e ↦ inr (inl (a, e))
    | for_full dst e ↦ held (λ a f. cc)
    | for_empty job e ↦ held (λ a f. cc)
    | active here ↦ held (λ a f. subst IsActive f here)
  ]
    where
      held :
          ((a : Answer) → (u.procs j).pc ≢ rest a)
          → CanMove n u ⊎ IsSettled (u.shared.system.content o) (u.procs j).pc
      held busy = elim (no_deadlock n o s u j fresh reach below busy) [
        | inl m ↦ inl m
        | inr stopped ↦ inr (inr stopped)
      ]

  all_settle :
      (m : ℕ)
      → m ≤ n
      → CanMove n u ⊎ ((j : ℕ) → j < m → IsSettled (u.shared.system.content o) (u.procs j).pc)
  all_settle zero le = inr (λ j lt. absurd (omega arith))
  all_settle (suc m) le = elim (one_settles m (omega arith)) [
    | inl x ↦ inl x
    | inr here ↦ elim (all_settle m (omega arith)) [
      | inl x ↦ inl x
      | inr others ↦ inr (λ j lt. elim (ℕ_discrete j m) [
        | yes same ↦
            subst (λ k. IsSettled (u.shared.system.content o) (u.procs k).pc) (sym same) here
        | no other ↦ others j (omega arith)
      ])
    ]
  ]

-- Processes start from a new queue, enqueue only valid jobs, and have memory, given or allocated,
-- for the job of every dequeue. From every state that they reach, in the middle of calls too,
-- every run in which no process starts a new call, in whatever order they take their steps and
-- with any waits interrupted, has at most five steps for each process. Where it ends, some
-- process can take a step with no wait interrupted, or every process is in no call, or waits in a
-- dequeue while the queue is empty, or waits in an enqueue while the queue holds as many jobs as
-- it can.
pub calls_end :
    (n o k : ℕ) (s u t : State)
    → Fresh o s
    → Reach n true s u
    → Run n u k t
    → (k ≤ 5 * n)
      × (CanMove n t ⊎ ((j : ℕ) → j < n → IsSettled (t.shared.system.content o) (t.procs j).pc))
calls_end n o k s u t fresh reach run = (
  omega (
    arith,
    Run-remaining n u k t run,
    sum-le-times (λ (q : Process). remaining q.pc) 5 (λ q. remaining-le q.pc) n u.procs,
  ),
  all_settle n o s t fresh (Reach-Run n true s u k t reach run) n (omega arith),
)
