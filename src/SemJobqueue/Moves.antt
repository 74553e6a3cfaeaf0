-- ===== src/SemJobqueue/Moves.antt =====
-- What one step of a process does to the jobs in the queue, to the counts of `full`, and to the
-- process's own memory.
pub mod Looking
pub mod Enqueuing
pub mod Dequeuing
use csc.Base.{
  ℕ, zero, suc, ◌+◌, ◌-◌, ◌≤◌, ◌<◌, ◌≡◌, ◌≢◌, refl, sym, ap, subst, ◌∙◌, Bool, true, false, Option,
  none, some, List, [], ◌∷◌, ◌++◌, length, length-append, arith, All, ◌⊎◌, inl, inr, Bool-cases,
}
use csc.CString.{strnlen}
use mathlib.Core.Option.{some-injective}
use csc.Job.{Job, Ptr, Heap}
use csc.PriJobqueue.{PriJobqueue}
use csc.PriJobqueue.Spec.{pop, push, accepts, Picks, pop-Picks}
use csc.Job.Deliver.{Delivers, target}
use csc.PriJobqueue.Inv.{Holds}
use csc.PriJobqueue.Refine.{Dequeued, Picks-IsQueued}
use csc.PriJobqueue.Looks.{Peeked}
use csc.PriJobqueue.Drain.{length-Picks}
use csc.Ipc.{Ipc, System}
use csc.IpcJobqueue
use csc.IpcJobqueue.Laws.{dequeue-Dequeued, enqueue-Holds, enqueue-null, looks_agree}
use csc.SemJobqueue.{
  Shared, Wait, interrupt, acquire, Look, Answer, DequeuePc, EnqueuePc, LookPc, Pc, rest, dequeuing,
  enqueuing, looking, Outcome, await, dequeue_step, enqueue_step, look_step, look_work,
}
use csc.SemJobqueue.Processes.{IsValidJob, IsGiven, IsSizedHeap}
use csc.SemJobqueue.Invariant.{taken, due, IsReady}

-- What a step from `s` at `p` leaves: the jobs `live` of the queue, the `surplus` of the posts of
-- `full` over the jobs, and what the process has of its caller.
pub record Moved (o : ℕ) (strict : Bool) (before : ℕ) (s : Shared) (p : Pc) (out : Outcome)
    : Type 0 where
  pub live : List Job
  pub surplus : ℕ
  pub holds : Holds (out.0.system.content o) live
  pub supply :
      length live + surplus + (s.full + taken p + due p)
      ≡ before + (out.0.full + taken out.2 + due out.2)
  pub exact : strict ≡ true → surplus ≡ 0
  pub sized : IsSizedHeap out.1
  pub ready : IsReady strict out.1 out.2

pub await-cases :
    (w : Wait) (v : ℕ) (failed : Outcome) (go : ℕ → Outcome) (out : Outcome)
    → await w v failed go ≡ some out
    → (out ≡ failed) ⊎ ((u : ℕ) × (v ≡ suc u) × (out ≡ go u))
unfolding await
await-cases interrupt v failed go out e = inl cc
await-cases acquire zero failed go out e = cc
await-cases acquire (suc v) failed go out e = inr (v, refl, cc)

-- A delivered job has a label of the right size.
pub Delivers-sized :
    (m : Job) (dst : Ptr) (h : Heap) (r : Ptr) (h' : Heap)
    → length m.label ≡ 32
    → IsSizedHeap h
    → Delivers m dst h (r, h')
    → IsSizedHeap h'
Delivers-sized m dst h r h' size sized (inl (e, here, others)) p =
    elim (csc.Base.ℕ_discrete p (target dst h)) [
      | yes same ↦
          subst (λ a. length (h'.cell a).label ≡ 32) (sym same)
            (ap (λ j. length j.label) here ∙ size)
      | no other ↦ ap (λ j. length j.label) (others p other) ∙ sized p
    ]
Delivers-sized m dst h r h' size sized (inr (n, f, e, same)) p =
    ap (λ j. length j.label) (same p) ∙ sized p

-- A wait is refused or interrupted, or it goes on.
pub waits :
    {o : ℕ} {strict : Bool} {before : ℕ} {s : Shared} {p : Pc} (w : Wait) (v : ℕ) (failed : Outcome)
    (go : ℕ → Outcome) (out : Outcome)
    → await w v failed go ≡ some out
    → Moved o strict before s p failed
    → ((u : ℕ) → v ≡ suc u → Moved o strict before s p (go u))
    → Moved o strict before s p out
waits {o} {strict} {before} {s} {p} w v failed go out e stopped goes =
    elim (await-cases w v failed go out e) [
      | inl same ↦ subst (Moved o strict before s p) (sym same) stopped
      | inr (u, f, same) ↦ subst (Moved o strict before s p) (sym same) (goes u f)
    ]

-- What holds of the queue, the memory and the surplus before a step.
pub record Before (o : ℕ) (strict : Bool) (live : List Job) (surplus : ℕ) (s : Shared) (h : Heap)
    : Type 0 where
  pub holds : Holds (s.system.content o) live
  pub exact : strict ≡ true → surplus ≡ 0
  pub sized : IsSizedHeap h

module _ {o : ℕ} {strict : Bool} {live : List Job} {surplus : ℕ} {s : Shared} {h : Heap}
    (b : Before o strict live surplus s h) where
  -- A step that is no call of an ipc_jobqueue function.
  pub quiet :
      (p : Pc) (t : Shared) (p' : Pc)
      → t.system ≡ s.system
      → s.full + taken p + due p ≡ t.full + taken p' + due p'
      → IsReady strict h p'
      → Moved o strict (length live + surplus) s p (t, h, p')
  quiet p t p' same balance ready = record {
    live = live;
    surplus = surplus;
    holds = subst (λ u. Holds (u.content o) live) (sym same) b.holds;
    supply = omega (arith, balance);
    exact = b.exact;
    sized = b.sized;
    ready = ready;
  }

  -- Such a step that no semaphore can hold up.
  pub moves :
      (p : Pc) (t : Shared) (p' : Pc) {out : Outcome}
      → some (t, h, p') ≡ some out
      → t.system ≡ s.system
      → s.full + taken p + due p ≡ t.full + taken p' + due p'
      → IsReady strict h p'
      → Moved o strict (length live + surplus) s p out
  moves p t p' e same balance ready =
      subst (Moved o strict (length live + surplus) s p) (some-injective _ _ e)
        (quiet p t p' same balance ready)

  pub here : (i : Ipc) → i.addr ≡ o → Holds (s.system.content i.addr) live
  here i at = subst (λ a. Holds (s.system.content a) live) (sym at) b.holds
