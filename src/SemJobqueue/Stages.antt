-- ===== src/SemJobqueue/Stages.antt =====
-- Where a process is in a call of sem_jobqueue.c, by what its next step waits for.
use csc.Base.{ℕ, zero, suc, ◌<◌, ◌≡◌, refl, ◌⊎◌, inl, inr, some, arith}
use csc.Job.{Ptr, Heap}
use csc.Ipc.{Ipc}
use csc.SemJobqueue.{
  Shared, acquire, Answer, DequeuePc, EnqueuePc, LookPc, Pc, rest, dequeuing, enqueuing, looking,
  Outcome, await, step, dequeue_step, enqueue_step, look_step,
}
use csc.SemJobqueue.Invariant.{in_flight}

-- In a call, and past its wait for `full` or `empty`.
abbrev pub IsActive : Pc → Type 0
IsActive (rest a) = ⊥
IsActive (dequeuing (DequeuePc.wait_full dst)) = ⊥
IsActive (enqueuing (EnqueuePc.wait_empty job)) = ⊥
IsActive p = Unit

await-goes :
    (v : ℕ) (failed : Outcome) (go : ℕ → Outcome)
    → ((out : Outcome) × (await acquire v failed go ≡ some out)) ⊎ (v ≡ 0)
unfolding await
await-goes zero failed go = inr refl
await-goes (suc v) failed go = inl (go v, refl)

pub active-moves :
    (i : Ipc) (s : Shared) (h : Heap) (p : Pc)
    → IsActive p
    → ((out : Outcome) × (step acquire i s h p ≡ some out)) ⊎ (s.mutex ≡ 0)
unfolding step dequeue_step enqueue_step look_step
active-moves i s h (rest a) past = absurd past
active-moves i s h (dequeuing (DequeuePc.wait_full dst)) past = absurd past
active-moves i s h (dequeuing (DequeuePc.wait_mutex dst)) past = await-goes s.mutex _ _
active-moves i s h (dequeuing DequeuePc.undo) past = inl (_, refl)
active-moves i s h (dequeuing (DequeuePc.work dst)) past = inl (_, refl)
active-moves i s h (dequeuing (DequeuePc.post_mutex r)) past = inl (_, refl)
active-moves i s h (dequeuing (DequeuePc.post_empty r)) past = inl (_, refl)
active-moves i s h (enqueuing (EnqueuePc.wait_empty job)) past = absurd past
active-moves i s h (enqueuing (EnqueuePc.wait_mutex job)) past = await-goes s.mutex _ _
active-moves i s h (enqueuing EnqueuePc.undo) past = inl (_, refl)
active-moves i s h (enqueuing (EnqueuePc.work job)) past = inl (_, refl)
active-moves i s h (enqueuing EnqueuePc.post_mutex) past = inl (_, refl)
active-moves i s h (enqueuing EnqueuePc.post_full) past = inl (_, refl)
active-moves i s h (looking (LookPc.wait_mutex l)) past = await-goes s.mutex _ _
active-moves i s h (looking (LookPc.work l)) past = inl (_, refl)
active-moves i s h (looking (LookPc.post_mutex a)) past = inl (_, refl)

pub full-goes :
    (i : Ipc) (s : Shared) (h : Heap) (dst : Ptr)
    → ((out : Outcome) × (step acquire i s h (dequeuing (DequeuePc.wait_full dst)) ≡ some out))
      ⊎ (s.full ≡ 0)
unfolding step dequeue_step
full-goes i s h dst = await-goes s.full _ _

pub empty-goes :
    (i : Ipc) (s : Shared) (h : Heap) (job : Ptr)
    → ((out : Outcome) × (step acquire i s h (enqueuing (EnqueuePc.wait_empty job)) ≡ some out))
      ⊎ (s.empty ≡ 0)
unfolding step enqueue_step
empty-goes i s h job = await-goes s.empty _ _

pub in_flight-IsActive : (p : Pc) → 0 < in_flight p → IsActive p
in_flight-IsActive (rest a) busy = absurd (omega arith)
in_flight-IsActive (dequeuing (DequeuePc.wait_full dst)) busy = absurd (omega arith)
in_flight-IsActive (dequeuing (DequeuePc.wait_mutex dst)) busy = tt
in_flight-IsActive (dequeuing DequeuePc.undo) busy = tt
in_flight-IsActive (dequeuing (DequeuePc.work dst)) busy = tt
in_flight-IsActive (dequeuing (DequeuePc.post_mutex r)) busy = tt
in_flight-IsActive (dequeuing (DequeuePc.post_empty r)) busy = tt
in_flight-IsActive (enqueuing (EnqueuePc.wait_empty job)) busy = absurd (omega arith)
in_flight-IsActive (enqueuing (EnqueuePc.wait_mutex job)) busy = tt
in_flight-IsActive (enqueuing EnqueuePc.undo) busy = tt
in_flight-IsActive (enqueuing (EnqueuePc.work job)) busy = tt
in_flight-IsActive (enqueuing EnqueuePc.post_mutex) busy = tt
in_flight-IsActive (enqueuing EnqueuePc.post_full) busy = tt
in_flight-IsActive (looking p) busy = absurd (omega arith)

-- Where a process is, by what it waits for.
pub data Stage (p : Pc) : Type 0 where
  resting : (a : Answer) → p ≡ rest a → Stage p
  for_full : (dst : Ptr) → p ≡ dequeuing (DequeuePc.wait_full dst) → Stage p
  for_empty : (job : Ptr) → p ≡ enqueuing (EnqueuePc.wait_empty job) → Stage p
  active : IsActive p → Stage p

pub stage : (p : Pc) → Stage p
stage (rest a) = resting a refl
stage (dequeuing (DequeuePc.wait_full dst)) = for_full dst refl
stage (enqueuing (EnqueuePc.wait_empty job)) = for_empty job refl
stage (dequeuing (DequeuePc.wait_mutex dst)) = active tt
stage (dequeuing DequeuePc.undo) = active tt
stage (dequeuing (DequeuePc.work dst)) = active tt
stage (dequeuing (DequeuePc.post_mutex r)) = active tt
stage (dequeuing (DequeuePc.post_empty r)) = active tt
stage (enqueuing (EnqueuePc.wait_mutex job)) = active tt
stage (enqueuing EnqueuePc.undo) = active tt
stage (enqueuing (EnqueuePc.work job)) = active tt
stage (enqueuing EnqueuePc.post_mutex) = active tt
stage (enqueuing EnqueuePc.post_full) = active tt
stage (looking (LookPc.wait_mutex l)) = active tt
stage (looking (LookPc.work l)) = active tt
stage (looking (LookPc.post_mutex a)) = active tt
