-- ===== src/SemJobqueue/Progress.antt =====
-- The calls of sem_jobqueue.c do not block each other for ever: while a process is in a call, some
-- process can go on, or the one waits for a job or for room that there is not.
use csc.Base.{
  ℕ, ◌+◌, ◌≤◌, ◌<◌, ◌≡◌, ◌≢◌, refl, sym, subst, ◌⊎◌, inl, inr, true, some, List, [], ◌∷◌, length,
  arith, dec_lt,
}
use csc.Job.{Job, Ptr}
use csc.PriJobqueue.{PriJobqueue, job_buffer_size}
use csc.PriJobqueue.Inv.{Holds}
use csc.SemJobqueue.{
  acquire, Answer, DequeuePc, EnqueuePc, Pc, rest, dequeuing, enqueuing, Outcome, step,
}
use csc.SemJobqueue.Family.{sums-le, sum-member}
use csc.SemJobqueue.Processes.{Process, State, Reach}
use csc.SemJobqueue.Invariant.{taken, due, in_flight, total}
use csc.SemJobqueue.Keeps.{Reach-Inv, balanced}
use csc.SemJobqueue.Stages.{
  IsActive, active-moves, full-goes, empty-goes, in_flight-IsActive, stage, resting, for_full,
  for_empty, active,
}
use csc.SemJobqueue.Safety.{Fresh, Fresh-Inv, mutex_never_lost}

-- Some process can take a step, with no wait interrupted.
abbrev pub CanMove : ℕ → State → Type 0
CanMove n u =
    (j : ℕ) × (j < n)
    × ((out : Outcome) × (step acquire (u.procs j).ijq u.shared (u.procs j).heap (u.procs j).pc
          ≡ some out))

nothing_left : (q : PriJobqueue) (live : List Job) → length live ≡ 0 → Holds q live → Holds q []
nothing_left q [] e holds = holds
nothing_left q (x ∷ xs) e holds = absurd (omega arith)

-- A dequeue that waits while there is no job, or an enqueue that waits while there is no room.
abbrev pub IsHeldUp : PriJobqueue → Pc → Type 0
IsHeldUp q p =
    ((dst : Ptr) × (p ≡ dequeuing (DequeuePc.wait_full dst)) × Holds q [])
    ⊎ ((job : Ptr) × (live : List Job) × (p ≡ enqueuing (EnqueuePc.wait_empty job))
        × Holds q live
        × (length live ≡ job_buffer_size))

module _ (n o : ℕ) (s u : State) (fresh : Fresh o s) (reach : Reach n true s u) where
  -- While a process is active, one can move: it, or the one that holds `mutex`.
  active-CanMove : (j : ℕ) → j < n → IsActive (u.procs j).pc → CanMove n u
  active-CanMove j below busy =
      elim (active-moves (u.procs j).ijq u.shared (u.procs j).heap (u.procs j).pc busy) [
        | inl m ↦ (j, below, m)
        | inr z ↦
            let (k, lt, _, m) = mutex_never_lost n o true s u acquire fresh reach z in (k, lt, m)
      ]

  -- Where nobody can move, no call has taken from `full` or `empty`, so that both count.
  stuck_or_counts :
      CanMove n u
      ⊎ ((live : List Job) × Holds (u.shared.system.content o) live
          × (u.shared.full ≡ length live)
          × (u.shared.full + u.shared.empty ≡ job_buffer_size))
  stuck_or_counts =
      let v = Reach-Inv n o true s u (Fresh-Inv n o true s fresh) reach in
      let pending : total taken n u + total due n u ≤ total in_flight n u =
        sums-le _ _ _ (λ (q : Process). balanced q.pc) n u.procs in
      elim (dec_lt 0 (total in_flight n u)) [
        | yes busy ↦
            let (j, lt, here) = sum-member (λ (q : Process). in_flight q.pc) n u.procs busy in
            inl (active-CanMove j lt (in_flight-IsActive (u.procs j).pc here))
        | no quiet ↦ inr (
          v.live,
          v.holds,
          omega (arith, v.supply, v.exact refl, pending),
          omega (arith, v.tokens),
        )
      ]

  goes :
      (i : ℕ) (p : Pc)
      → i < n
      → (u.procs i).pc ≡ p
      → (out : Outcome) × (step acquire (u.procs i).ijq u.shared (u.procs i).heap p ≡ some out)
      → CanMove n u
  goes i p below e m = (
    i,
    below,
    subst
        (λ q.
          (out : Outcome) × (step acquire (u.procs i).ijq u.shared (u.procs i).heap q ≡ some out))
        (sym e) m,
  )

  waiting_full :
      (i : ℕ) (dst : Ptr)
      → i < n
      → (u.procs i).pc ≡ dequeuing (DequeuePc.wait_full dst)
      → CanMove n u ⊎ IsHeldUp (u.shared.system.content o) (u.procs i).pc
  waiting_full i dst below e = elim stuck_or_counts [
    | inl m ↦ inl m
    | inr (live, holds, jobs, _) ↦ elim (full-goes (u.procs i).ijq u.shared (u.procs i).heap dst) [
      | inl m ↦ inl (goes i _ below e m)
      | inr z ↦ inr (inl (dst, e, nothing_left _ live (omega (arith, z, jobs)) holds))
    ]
  ]

  waiting_empty :
      (i : ℕ) (job : Ptr)
      → i < n
      → (u.procs i).pc ≡ enqueuing (EnqueuePc.wait_empty job)
      → CanMove n u ⊎ IsHeldUp (u.shared.system.content o) (u.procs i).pc
  waiting_empty i job below e = elim stuck_or_counts [
    | inl m ↦ inl m
    | inr (live, holds, jobs, all) ↦
        elim (empty-goes (u.procs i).ijq u.shared (u.procs i).heap job) [
          | inl m ↦ inl (goes i _ below e m)
          | inr z ↦ inr (inr (job, live, e, holds, omega (arith, z, jobs, all)))
        ]
  ]

-- Processes start from a new queue, enqueue only valid jobs, and have memory, given or allocated,
-- for the job of every dequeue. In every state that they reach with process `i` in the middle of
-- a call: some process can take a step with no wait interrupted, or the call is a dequeue that
-- waits for `full` while the queue is empty, or an enqueue that waits for `empty` while the queue
-- holds as many jobs as it can.
pub no_deadlock :
    (n o : ℕ) (s u : State) (i : ℕ)
    → Fresh o s
    → Reach n true s u
    → i < n
    → ((a : Answer) → (u.procs i).pc ≢ rest a)
    → CanMove n u ⊎ IsHeldUp (u.shared.system.content o) (u.procs i).pc
no_deadlock n o s u i fresh reach below busy = elim (stage (u.procs i).pc) [
  | resting a e ↦ absurd (busy a e)
  | for_full dst e ↦ waiting_full n o s u fresh reach i dst below e
  | for_empty job e ↦ waiting_empty n o s u fresh reach i job below e
  | active here ↦ inl (active-CanMove n o s u fresh reach i below here)
]
