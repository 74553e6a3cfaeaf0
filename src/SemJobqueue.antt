-- ===== src/SemJobqueue.antt =====
-- sem_jobqueue.c, one process at a time: each function as a sequence of atomic steps, with a step
-- before every semaphore operation and one for the call of the ipc_jobqueue function. What a
-- process has still to do is its program counter.
pub mod Family
pub mod Processes
pub mod Refusal
pub mod Invariant
pub mod Moves
pub mod Keeps
pub mod Safety
pub mod Supply
pub mod Typed
pub mod Completion
pub mod History
pub mod Alone
pub mod Stages
pub mod Progress
pub mod Setup
mod Tests
use csc.Base.{ℕ, zero, suc, Bool, true, false, Option, none, some, List}
use csc.Job.{Ptr, Heap}
use csc.PriJobqueue.{PriJobqueue}
use csc.Ipc.{Ipc, System}
use csc.IpcJobqueue

-- The values of the three semaphores, and the shared memory.
pub record Shared : Type 0 where
  pub mutex : ℕ
  pub full : ℕ
  pub empty : ℕ
  pub system : System PriJobqueue

-- What the environment does to a `sem_wait`: let it go on once the value is positive, or interrupt
-- it, so that it returns -1.
pub data Wait : Type 0 where
  acquire interrupt : Wait

-- The functions that only look at the queue.
pub data Look : Type 0 where
  is_empty is_full size space : Look
  peek : Ptr → Look

pub data Call : Type 0 where
  dequeue : Ptr → Call
  enqueue : Ptr → Call
  look : Look → Call

-- What a function returns.
pub data Answer : Type 0 where
  nothing : Answer
  pointer : Ptr → Answer
  flag : Bool → Answer
  number : ℕ → Answer

pub data DequeuePc : Type 0 where
  wait_full : Ptr → DequeuePc
  wait_mutex : Ptr → DequeuePc
  undo : DequeuePc
  work : Ptr → DequeuePc
  post_mutex : Ptr → DequeuePc
  post_empty : Ptr → DequeuePc

pub data EnqueuePc : Type 0 where
  wait_empty : Ptr → EnqueuePc
  wait_mutex : Ptr → EnqueuePc
  undo : EnqueuePc
  work : Ptr → EnqueuePc
  post_mutex : EnqueuePc
  post_full : EnqueuePc

pub data LookPc : Type 0 where
  wait_mutex : Look → LookPc
  work : Look → LookPc
  post_mutex : Answer → LookPc

-- `rest` between two calls, with what the last one returned.
pub data Pc : Type 0 where
  rest : Answer → Pc
  dequeuing : DequeuePc → Pc
  enqueuing : EnqueuePc → Pc
  looking : LookPc → Pc

-- What a look answers for a NULL queue or when its `sem_wait` fails.
pub failed_look : Look → Answer
failed_look is_empty = flag true
failed_look is_full = flag true
failed_look size = number 0
failed_look space = number 0
failed_look (peek dst) = pointer none

-- The start of each function: `if (!sjq) return …;`
pub entry : Bool → Call → Pc
entry false (dequeue dst) = rest (pointer none)
entry false (enqueue job) = rest nothing
entry false (look l) = rest (failed_look l)
entry true (dequeue dst) = dequeuing (DequeuePc.wait_full dst)
entry true (enqueue job) = enqueuing (EnqueuePc.wait_empty job)
entry true (look l) = looking (LookPc.wait_mutex l)

abbrev pub Outcome : Type 0
Outcome = Shared × Heap × Pc

-- `sem_wait` on a semaphore of value `v`: the process is blocked (`none`), or goes on with what
-- the function does on -1, or with the value that is left.
unfoldable pub await : Wait → ℕ → Outcome → (ℕ → Outcome) → Option Outcome
await interrupt v failed go = some failed
await acquire zero failed go = none
await acquire (suc v) failed go = some (go v)

-- sem_jobqueue_dequeue
unfoldable pub dequeue_step : Wait → Ipc → Shared → Heap → DequeuePc → Option Outcome
dequeue_step w i s h (DequeuePc.wait_full dst) =
    await w s.full (s, h, rest (pointer none))
      (λ v. (record s { full = v }, h, dequeuing (DequeuePc.wait_mutex dst)))
dequeue_step w i s h (DequeuePc.wait_mutex dst) =
    await w s.mutex (s, h, dequeuing DequeuePc.undo)
      (λ v. (record s { mutex = v }, h, dequeuing (DequeuePc.work dst)))
dequeue_step w i s h DequeuePc.undo = some (record s { full = suc s.full }, h, rest (pointer none))
dequeue_step w i s h (DequeuePc.work dst) =
    let (r, t, h') = IpcJobqueue.dequeue (some i) dst s.system h in
    some (record s { system = t }, h', dequeuing (DequeuePc.post_mutex r))
dequeue_step w i s h (DequeuePc.post_mutex r) =
    some (record s { mutex = suc s.mutex }, h, dequeuing (DequeuePc.post_empty r))
dequeue_step w i s h (DequeuePc.post_empty r) =
    some (record s { empty = suc s.empty }, h, rest (pointer r))

-- sem_jobqueue_enqueue
unfoldable pub enqueue_step : Wait → Ipc → Shared → Heap → EnqueuePc → Option Outcome
enqueue_step w i s h (EnqueuePc.wait_empty job) =
    await w s.empty (s, h, rest nothing)
      (λ v. (record s { empty = v }, h, enqueuing (EnqueuePc.wait_mutex job)))
enqueue_step w i s h (EnqueuePc.wait_mutex job) =
    await w s.mutex (s, h, enqueuing EnqueuePc.undo)
      (λ v. (record s { mutex = v }, h, enqueuing (EnqueuePc.work job)))
enqueue_step w i s h EnqueuePc.undo = some (record s { empty = suc s.empty }, h, rest nothing)
enqueue_step w i s h (EnqueuePc.work job) = some (
  record s { system = IpcJobqueue.enqueue (some i) job s.system h },
  h,
  enqueuing EnqueuePc.post_mutex,
)
enqueue_step w i s h EnqueuePc.post_mutex =
    some (record s { mutex = suc s.mutex }, h, enqueuing EnqueuePc.post_full)
enqueue_step w i s h EnqueuePc.post_full = some (record s { full = suc s.full }, h, rest nothing)

-- The call of the ipc_jobqueue function in a look.
pub look_work : Ipc → Look → System PriJobqueue → Heap → Answer × System PriJobqueue × Heap
look_work i is_empty s h = let (b, t) = IpcJobqueue.is_empty (some i) s in (flag b, t, h)
look_work i is_full s h = let (b, t) = IpcJobqueue.is_full (some i) s in (flag b, t, h)
look_work i size s h = let (n, t) = IpcJobqueue.size (some i) s in (number n, t, h)
look_work i space s h = let (n, t) = IpcJobqueue.space (some i) s in (number n, t, h)
look_work i (peek dst) s h =
    let (r, t, h') = IpcJobqueue.peek (some i) dst s h in (pointer r, t, h')

-- sem_jobqueue_is_empty, _is_full, _peek, _size and _space, which differ in that call and in what
-- they return when `sem_wait` fails
unfoldable pub look_step : Wait → Ipc → Shared → Heap → LookPc → Option Outcome
look_step w i s h (LookPc.wait_mutex l) =
    await w s.mutex (s, h, rest (failed_look l))
      (λ v. (record s { mutex = v }, h, looking (LookPc.work l)))
look_step w i s h (LookPc.work l) =
    let (a, t, h') = look_work i l s.system h in
    some (record s { system = t }, h', looking (LookPc.post_mutex a))
look_step w i s h (LookPc.post_mutex a) = some (record s { mutex = suc s.mutex }, h, rest a)

-- One step of a process that is in a call.
unfoldable pub step : Wait → Ipc → Shared → Heap → Pc → Option Outcome
step w i s h (rest a) = none
step w i s h (dequeuing p) = dequeue_step w i s h p
step w i s h (enqueuing p) = enqueue_step w i s h p
step w i s h (looking p) = look_step w i s h p
