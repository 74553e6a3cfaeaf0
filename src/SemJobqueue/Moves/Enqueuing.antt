-- ===== src/SemJobqueue/Moves/Enqueuing.antt =====
-- The steps of sem_jobqueue_enqueue.
use csc.Base.{
  ℕ, suc, ◌+◌, ◌<◌, ◌≡◌, refl, sym, ap, subst, Bool, true, false, none, some, List, [], ◌∷◌, length,
  length-append, arith, ◌⊎◌, inl, inr, Bool-cases,
}
use mathlib.Core.Option.{some-injective}
use csc.Job.{Job, Ptr, Heap}
use csc.PriJobqueue.Spec.{push, accepts}
use csc.PriJobqueue.Inv.{Holds}
use csc.Ipc.{Ipc}
use csc.IpcJobqueue
use csc.IpcJobqueue.Laws.{enqueue-Holds, enqueue-null}
use csc.SemJobqueue.{Shared, Wait, EnqueuePc, rest, enqueuing, Outcome, enqueue_step}
use csc.SemJobqueue.Processes.{IsValidJob, IsGiven}
use csc.SemJobqueue.Invariant.{taken, due, IsReady, in_flight}
use csc.SemJobqueue.Moves.{Before, moves, Moved, waits, quiet, here}

-- A valid job is taken where there is room.
pub valid_accepted :
    (live : List Job) (h : Heap) (p : ℕ)
    → length live < 128
    → IsValidJob h (some p)
    → accepts live (h.cell p) ≡ true
unfolding accepts
valid_accepted live h p room v = ground (arith, v)

-- Whether the queue takes the job, or its post of `full` is one too many.
pushed :
    (live : List Job) (j : Job)
    → ((accepts live j ≡ true) × (length (push live j) ≡ length live + 1))
      ⊎ ((accepts live j ≡ false) × (push live j ≡ live))
unfolding push
pushed live j = elim (Bool-cases (accepts live j)) [
  | inl e ↦ inl (e, rw e (length-append live (j ∷ [])))
  | inr e ↦ inr (e, rw e refl)
]

module _ (o : ℕ) (strict : Bool) (live : List Job) (surplus : ℕ) (s : Shared) (h : Heap)
    (b : Before o strict live surplus s h) where
  enqueue_work-Moved :
      (i : Ipc) (job : Ptr)
      → i.addr ≡ o
      → length live < 128
      → IsReady strict h (enqueuing (EnqueuePc.work job))
      → Moved o strict (length live + surplus) s (enqueuing (EnqueuePc.work job)) (
        record s { system = IpcJobqueue.enqueue (some i) job s.system h },
        h,
        enqueuing EnqueuePc.post_mutex,
      )
  enqueue_work-Moved i none at room ready = record {
    live = live;
    surplus = surplus + 1;
    holds = subst (λ q. Holds q live) (sym (enqueue-null i o s.system h)) b.holds;
    supply = omega arith;
    exact = λ st. absurd (subst (λ b. IsGiven b h none) st ready);
    sized = b.sized;
    ready = tt;
  }
  enqueue_work-Moved i (some p) at room ready =
      let (holds', same) = enqueue-Holds i live p s.system h (here b i at) (b.sized p) in
      let there =
        subst
          (λ a.
            Holds ((IpcJobqueue.enqueue (some i) (some p) s.system h).content a)
              (push live (h.cell p)))
          at holds' in
      elim (pushed live (h.cell p)) [
        | inl (e, longer) ↦ record {
          live = push live (h.cell p);
          surplus = surplus;
          holds = there;
          supply = omega (arith, longer);
          exact = b.exact;
          sized = b.sized;
          ready = tt;
        }
        | inr (e, same) ↦ record {
          live = push live (h.cell p);
          surplus = surplus + 1;
          holds = there;
          supply = omega (arith, ap length same);
          exact =
              λ st. cc (valid_accepted live h p room (subst (λ b. IsGiven b h (some p)) st ready));
          sized = b.sized;
          ready = tt;
        }
      ]

  pub enqueue_step-Moved :
      (w : Wait) (i : Ipc) (p : EnqueuePc) (out : Outcome)
      → i.addr ≡ o
      → (taken (enqueuing p) + due (enqueuing p) < in_flight (enqueuing p) → length live < 128)
      → IsReady strict h (enqueuing p)
      → enqueue_step w i s h p ≡ some out
      → Moved o strict (length live + surplus) s (enqueuing p) out
  unfolding enqueue_step
  enqueue_step-Moved w i (EnqueuePc.wait_empty job) out at room ready e =
      waits w s.empty _ _ out e (quiet b _ s (rest _) refl refl tt) (λ v f.
        quiet b _ (record s { empty = v }) (enqueuing (EnqueuePc.wait_mutex job)) refl refl ready)
  enqueue_step-Moved w i (EnqueuePc.wait_mutex job) out at room ready e =
      waits w s.mutex _ _ out e (quiet b _ s (enqueuing EnqueuePc.undo) refl refl tt)
        (λ v f. quiet b _ (record s { mutex = v }) (enqueuing (EnqueuePc.work job)) refl refl ready)
  enqueue_step-Moved w i EnqueuePc.undo out at room ready e =
      moves b _ (record s { empty = suc s.empty }) (rest _) e refl refl tt
  enqueue_step-Moved w i (EnqueuePc.work job) out at room ready e =
      subst (Moved o strict _ s _) (some-injective _ _ e)
        (enqueue_work-Moved i job at (room (omega arith)) ready)
  enqueue_step-Moved w i EnqueuePc.post_mutex out at room ready e =
      moves b _ (record s { mutex = suc s.mutex }) (enqueuing EnqueuePc.post_full) e refl refl tt
  enqueue_step-Moved w i EnqueuePc.post_full out at room ready e =
      moves b _ (record s { full = suc s.full }) (rest _) e refl (omega arith) tt
