-- ===== src/SemJobqueue/Alone.antt =====
-- A call of sem_jobqueue.c that no other process disturbs, and what sem_jobqueue.h says of it.
pub mod Vain
use csc.Base.{
  ℕ, zero, suc, ◌+◌, ◌-◌, ◌≡◌, ◌<◌, refl, sym, ap, ap₂, subst, ◌∙◌, Bool, true, false, Option, none,
  some, List, [], ◌∷◌, length, arith,
}
use csc.Job.{Job, Ptr, Heap}
use csc.PriJobqueue.Spec.{push, accepts}
use csc.PriJobqueue.Inv.{Holds}
use csc.Ipc.{Ipc, System}
use csc.PriJobqueue.{PriJobqueue}
use csc.IpcJobqueue
use csc.IpcJobqueue.Laws.{enqueue-Holds, enqueue-null}
use csc.SemJobqueue.Refusal.{refusal, failed_look-refusal}
use csc.SemJobqueue.{
  Shared, Wait, acquire, interrupt, Look, Call, dequeue, enqueue, look, pointer, nothing, look_work,
  Pc, rest, dequeuing, enqueuing, looking, entry, Outcome, step, await, dequeue_step, enqueue_step,
  look_step,
}

continue : (Shared → Heap → Pc → Option Outcome) → Option Outcome → Option Outcome
continue go none = none
continue go (some (s, h, p)) = go s h p

-- The steps of a process until it is in no call, at most as many as the list has entries, which
-- say what becomes of each `sem_wait`: `none` where the process is blocked.
unfoldable pub alone : List Wait → Ipc → Shared → Heap → Pc → Option Outcome
unfolding continue
alone [] i s h p = some (s, h, p)
alone (w ∷ ws) i s h (rest a) = some (s, h, rest a)
alone (w ∷ ws) i s h (dequeuing p) = continue (alone ws i) (step w i s h (dequeuing p))
alone (w ∷ ws) i s h (enqueuing p) = continue (alone ws i) (step w i s h (enqueuing p))
alone (w ∷ ws) i s h (looking p) = continue (alone ws i) (step w i s h (looking p))

-- Enough steps for any call, where its first `sem_wait` ends as `w` says and its second as `v`.
abbrev pub waits : Wait → Wait → List Wait
waits w v = w ∷ (v ∷ (acquire ∷ (acquire ∷ (acquire ∷ []))))

-- How a call ends.
pub data Ending : Type 0 where
  blocked fails completes : Ending

-- A `sem_wait` on a semaphore of the given value, and what comes of the call if it is granted.
unfoldable pub granted : Wait → ℕ → Ending → Ending
granted interrupt n next = Ending.fails
granted acquire zero next = Ending.blocked
granted acquire (suc n) next = next

unfoldable pub end_as : Ending → Outcome → Outcome → Option Outcome
end_as Ending.blocked failure success = none
end_as Ending.fails failure success = some failure
end_as Ending.completes failure success = some success

-- A wrapper for ipc_jobqueue_dequeue that blocks where the queue is empty, and that changes
-- nothing where a `sem_wait` fails.
unfoldable pub dequeue_documented : Wait → Wait → Ipc → Shared → Heap → Ptr → Option Outcome
dequeue_documented w v i s h dst =
    let (r, t, h') = IpcJobqueue.dequeue (some i) dst s.system h in
    end_as (granted w s.full (granted v s.mutex Ending.completes))
      (s, h, rest (refusal (dequeue dst)))
      (
        record { mutex = s.mutex; full = s.full - 1; empty = s.empty + 1; system = t },
        h',
        rest (pointer r),
      )

-- A wrapper for ipc_jobqueue_enqueue that blocks where the queue is full, and that changes nothing
-- where a `sem_wait` fails.
unfoldable pub enqueue_documented : Wait → Wait → Ipc → Shared → Heap → Ptr → Option Outcome
enqueue_documented w v i s h job =
    let t = IpcJobqueue.enqueue (some i) job s.system h in
    end_as (granted w s.empty (granted v s.mutex Ending.completes))
      (s, h, rest (refusal (enqueue job)))
      (
        record { mutex = s.mutex; full = s.full + 1; empty = s.empty - 1; system = t },
        h,
        rest nothing,
      )

-- Wrappers for the other ipc_jobqueue functions, which block where another process has `mutex`,
-- and which return their refusal where the `sem_wait` fails.
unfoldable pub look_documented : Wait → Ipc → Shared → Heap → Look → Option Outcome
look_documented w i s h l =
    let (a, t, h') = look_work i l s.system h in
    end_as (granted w s.mutex Ending.completes) (s, h, rest (refusal (look l)))
      (record { mutex = s.mutex; full = s.full; empty = s.empty; system = t }, h', rest a)

-- A call on a queue, or on NULL where the Boolean is false.
unfoldable pub documented : Bool → Wait → Wait → Ipc → Shared → Heap → Call → Option Outcome
documented false w v i s h c = some (s, h, rest (refusal c))
documented true w v i s h (dequeue dst) = dequeue_documented w v i s h dst
documented true w v i s h (enqueue job) = enqueue_documented w v i s h job
documented true w v i s h (look l) = look_documented w i s h l

abbrev with_values : Shared → ℕ → ℕ → ℕ → Shared
with_values s m f e = record s { mutex = m; full = f; empty = e }

abbrev with_system : Shared → System PriJobqueue → Shared
with_system s t = record s { system = t }

alone-dequeue :
    (w v : Wait) (i : Ipc) (s : Shared) (h : Heap) (dst : Ptr) (m f e : ℕ)
    → alone (waits w v) i (with_values s m f e) h (entry true (dequeue dst))
      ≡ dequeue_documented w v i (with_values s m f e) h dst
unfolding alone entry step dequeue_step await dequeue_documented end_as granted refusal
alone-dequeue interrupt v i s h dst m f e = refl
alone-dequeue acquire v i s h dst m zero e = refl
alone-dequeue acquire interrupt i s h dst m (suc f) e = refl
alone-dequeue acquire acquire i s h dst zero (suc f) e = refl
alone-dequeue acquire acquire i s h dst (suc m) (suc f) e =
    ap₂
      (λ x y. some (
        with_system (with_values s (suc m) x y) (IpcJobqueue.dequeue (some i) dst s.system h).1,
        (IpcJobqueue.dequeue (some i) dst s.system h).2,
        rest (pointer (IpcJobqueue.dequeue (some i) dst s.system h).0),
      ))
      (omega arith) (omega arith)

alone-enqueue :
    (w v : Wait) (i : Ipc) (s : Shared) (h : Heap) (job : Ptr) (m f e : ℕ)
    → alone (waits w v) i (with_values s m f e) h (entry true (enqueue job))
      ≡ enqueue_documented w v i (with_values s m f e) h job
unfolding alone entry step enqueue_step await enqueue_documented end_as granted refusal
alone-enqueue interrupt v i s h job m f e = refl
alone-enqueue acquire v i s h job m f zero = refl
alone-enqueue acquire interrupt i s h job m f (suc e) = refl
alone-enqueue acquire acquire i s h job zero f (suc e) = refl
alone-enqueue acquire acquire i s h job (suc m) f (suc e) =
    ap₂
      (λ x y. some (
        with_system (with_values s (suc m) x y) (IpcJobqueue.enqueue (some i) job s.system h),
        h,
        rest nothing,
      ))
      (omega arith) (omega arith)

alone-look :
    (w v : Wait) (i : Ipc) (s : Shared) (h : Heap) (l : Look) (m f e : ℕ)
    → alone (waits w v) i (with_values s m f e) h (entry true (look l))
      ≡ look_documented w i (with_values s m f e) h l
unfolding alone entry step look_step await look_documented end_as granted
alone-look interrupt v i s h l m f e =
    ap (λ a. some (with_values s m f e, h, rest a)) (failed_look-refusal l)
alone-look acquire v i s h l zero f e = refl
alone-look acquire v i s h l (suc m) f e = refl

pub alone-documented :
    (present : Bool) (w v : Wait) (i : Ipc) (s : Shared) (h : Heap) (c : Call)
    → alone (waits w v) i s h (entry present c) ≡ documented present w v i s h c
unfolding alone entry documented refusal
alone-documented false w v i s h (dequeue dst) = refl
alone-documented false w v i s h (enqueue job) = refl
alone-documented false w v i s h (look l) = ap (λ a. some (s, h, rest a)) (failed_look-refusal l)
alone-documented true w v i s h (dequeue dst) = alone-dequeue w v i s h dst s.mutex s.full s.empty
alone-documented true w v i s h (enqueue job) = alone-enqueue w v i s h job s.mutex s.full s.empty
alone-documented true w v i s h (look l) = alone-look w v i s h l s.mutex s.full s.empty
