-- ===== src/SemJobqueue/Supply.antt =====
-- What `full` and `empty` guarantee: a dequeue finds a job, an enqueue finds room.
use csc.Base.{
  ℕ, ◌+◌, ◌-◌, ◌≤◌, ◌<◌, ◌≡◌, refl, sym, ap, subst, Bool, true, some, List, [], ◌∷◌, ◌++◌, length,
  arith,
}
use csc.Job.{Job, Ptr}
use csc.Job.Deliver.{target}
use csc.PriJobqueue.{job_buffer_size}
use csc.PriJobqueue.Spec.{pop, push}
use csc.PriJobqueue.Inv.{Holds}
use csc.IpcJobqueue
use csc.IpcJobqueue.Laws.{dequeue-Dequeued, enqueue-Holds}
use csc.SemJobqueue.{DequeuePc, EnqueuePc, dequeuing, enqueuing}
use csc.SemJobqueue.Family.{sums-le, sum-zero}
use csc.SemJobqueue.Processes.{Process, State, IsValidJob, CanReceive, Reach}
use csc.SemJobqueue.Invariant.{taken, due, in_flight, total, IsReady}
use csc.SemJobqueue.Moves.Enqueuing.{valid_accepted}
use csc.SemJobqueue.Moves.Dequeuing.{finds}
use csc.SemJobqueue.Keeps.{Reach-Inv, room, some_job, balanced}
use csc.SemJobqueue.Safety.{Fresh, Fresh-Inv}

-- In every state that processes reach from a new queue by enqueuing only valid jobs and having
-- memory, given or allocated, for the job of every dequeue: while no call has taken from `full`
-- or `empty`, `full` is the number of jobs in the queue and `empty` the number of free slots.
pub semaphores_count :
    (n o : ℕ) (s u : State)
    → Fresh o s
    → Reach n true s u
    → ((j : ℕ) → j < n → in_flight (u.procs j).pc ≡ 0)
    → (live : List Job) × Holds (u.shared.system.content o) live
      × (u.shared.full ≡ length live)
      × (u.shared.empty ≡ job_buffer_size - length live)
semaphores_count n o s u fresh reach quiet =
    let v = Reach-Inv n o true s u (Fresh-Inv n o true s fresh) reach in
    let none_in_flight : total in_flight n u ≡ 0 =
      sum-zero (λ (q : Process). in_flight q.pc) n u.procs quiet in
    let pending : total taken n u + total due n u ≤ total in_flight n u =
      sums-le _ _ _ (λ (q : Process). balanced q.pc) n u.procs in
    let counts : (u.shared.full ≡ length v.live)
        × (u.shared.empty ≡ job_buffer_size - length v.live) =
      omega (arith, v.tokens, v.supply, v.exact refl, none_in_flight, pending) in
    (v.live, v.holds, counts.0, counts.1)

-- Processes start from a new queue, enqueue only valid jobs, and have memory, given or allocated,
-- for the job of every dequeue. Then whenever a process has taken `full` and `mutex` in a
-- dequeue, the queue has a job: the call of `ipc_jobqueue_dequeue` that is its next step copies
-- the next job to the caller and takes it out.
pub dequeue_finds :
    (n o : ℕ) (s u : State) (i : ℕ) (dst : Ptr)
    → Fresh o s
    → Reach n true s u
    → i < n
    → (u.procs i).pc ≡ dequeuing (DequeuePc.work dst)
    → let (r, t, h) =
        IpcJobqueue.dequeue (some (u.procs i).ijq) dst u.shared.system (u.procs i).heap in
      (live : List Job) × (m : Job) × (others : List Job) × Holds (u.shared.system.content o) live
      × (pop live ≡ some (m, others))
      × (r ≡ some (target dst (u.procs i).heap))
      × (h.cell (target dst (u.procs i).heap) ≡ m)
      × Holds (t.content o) others
dequeue_finds n o s u i dst fresh reach below at =
    let v = Reach-Inv n o true s u (Fresh-Inv n o true s fresh) reach in
    let busy : taken (u.procs i).pc ≡ 1 = ap taken at in
    let found : 0 < length v.live =
      omega (arith, v.exact refl, some_job n o true u i below v, busy) in
    let given : CanReceive (u.procs i).heap dst =
      subst (IsReady true (u.procs i).heap) at (v.ready i) in
    let here = subst (λ a. Holds (u.shared.system.content a) v.live) (sym (v.mapped i)) v.holds in
    let d' =
      (dequeue-Dequeued (u.procs i).ijq v.live dst u.shared.system (u.procs i).heap here).0 in
    let (m, others, e, r, c, left) = finds _ v.live dst (u.procs i).heap _ _ _ found given d' in
    (
      v.live,
      m,
      others,
      v.holds,
      e,
      r,
      c,
      subst
          (λ a.
            Holds
              ((IpcJobqueue.dequeue (some (u.procs i).ijq) dst u.shared.system
                  (u.procs i).heap).1.content
                a)
              others)
          (v.mapped i) left,
    )

-- Processes start from a new queue, and there is memory, given or allocated, for the job of every
-- dequeue. Whenever a process has taken `empty` and `mutex` in an enqueue of a valid job, the
-- queue has room: the call of `ipc_jobqueue_enqueue` that is its next step puts the job at the
-- end.
pub enqueue_adds :
    (n o : ℕ) (strict : Bool) (s u : State) (i p : ℕ)
    → Fresh o s
    → Reach n strict s u
    → i < n
    → (u.procs i).pc ≡ enqueuing (EnqueuePc.work (some p))
    → IsValidJob (u.procs i).heap (some p)
    → let t =
        IpcJobqueue.enqueue (some (u.procs i).ijq) (some p) u.shared.system (u.procs i).heap in
      (live : List Job) × Holds (u.shared.system.content o) live
      × Holds (t.content o) (live ++ ((u.procs i).heap.cell p ∷ []))
unfolding push
enqueue_adds n o strict s u i p fresh reach below at valid =
    let v = Reach-Inv n o strict s u (Fresh-Inv n o strict s fresh) reach in
    let busy : (taken (u.procs i).pc ≡ 0)
        × (due (u.procs i).pc ≡ 0)
        × (in_flight (u.procs i).pc ≡ 1) =
      (ap taken at, ap due at, ap in_flight at) in
    let space : length v.live < 128 = room n o strict u i below v (omega (arith, busy)) in
    let here = subst (λ a. Holds (u.shared.system.content a) v.live) (sym (v.mapped i)) v.holds in
    let after =
      (enqueue-Holds (u.procs i).ijq v.live p u.shared.system (u.procs i).heap here
        (v.sized i p)).0 in
    let pushed : push v.live ((u.procs i).heap.cell p) ≡ v.live ++ ((u.procs i).heap.cell p ∷ []) =
      rw (valid_accepted v.live (u.procs i).heap p space valid) refl in
    (
      v.live,
      v.holds,
      subst (Holds _) pushed (
          subst
            (λ a.
              Holds
                ((IpcJobqueue.enqueue (some (u.procs i).ijq) (some p) u.shared.system
                    (u.procs i).heap).content
                  a)
                (push v.live ((u.procs i).heap.cell p)))
            (v.mapped i) after),
    )
