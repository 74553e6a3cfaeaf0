-- ===== src/SemJobqueue/Setup.antt =====
-- sem_jobqueue_new and sem_jobqueue_delete, and what the operating system keeps for them: named
-- semaphores and their values.
pub mod Labels
pub mod Opening
pub mod Laws
pub mod Delete
pub mod Outcomes
pub mod Ended
pub mod Start
pub mod Joining
pub mod JoinAll
pub mod AsLook
mod Tests
use csc.Base.{
  ℕ, zero, suc, Bool, true, false, Option, none, some, List, [], ◌∷◌, ◌==◌, if◌then◌else◌, ◌>>=◌,
}
use Prim.Native.Nat.{bit_and, bit_or}
use csc.CString.{codes}
use csc.Job.{update}
use csc.PriJobqueue.{PriJobqueue}
use csc.Proc.{Proc}
use csc.Ipc.{Ipc, System, Grants, rename, ipc_name}
use csc.IpcJobqueue
use csc.SemJobqueue.{Wait, acquire, interrupt}

-- SEM_NEW_FAIL
abbrev pub sem_new_fail : ℕ
sem_new_fail = 0

-- MUTEX_SEM_SUCCESS
abbrev pub mutex_sem_success : ℕ
mutex_sem_success = 1

-- FULL_SEM_SUCCESS
abbrev pub full_sem_success : ℕ
full_sem_success = 2

-- EMPTY_SEM_SUCCESS
abbrev pub empty_sem_success : ℕ
empty_sem_success = 4

-- ALL_SEM_SUCCESS
abbrev pub all_sem_success : ℕ
all_sem_success = 7

abbrev pub sem_mutex_label : List ℕ
sem_mutex_label = codes "sjq.mutex"

abbrev pub sem_full_label : List ℕ
sem_full_label = codes "sjq.full"

abbrev pub sem_empty_label : List ℕ
sem_empty_label = codes "sjq.empty"

-- struct sem_jobqueue. A semaphore that was not opened leaves its field as it was: `none`.
pub record SemJobqueue : Type 0 where
  pub mutex : Option ℕ
  pub full : Option ℕ
  pub empty : Option ℕ
  pub ijq : Ipc

-- The semaphores of the system under their names, their values, and how often `sem_close` has been
-- called for each.
pub record Semaphores : Type 0 where
  pub known : List ℕ → Option ℕ
  pub value : ℕ → ℕ
  pub closes : ℕ → ℕ
  pub fresh : ℕ

pub record World : Type 0 where
  pub system : System PriJobqueue
  pub semaphores : Semaphores

-- Which calls succeed where they may fail, and what becomes of the `sem_wait`.
pub record Chances : Type 0 where
  pub malloc : Bool
  pub ipc : Grants
  pub mutex : Bool
  pub full : Bool
  pub empty : Bool
  pub wait : Wait

-- `sem_open` with O_CREAT: the semaphore of that name, as it is, or a new one of the given value.
unfoldable pub sem_open : List ℕ → ℕ → Bool → Semaphores → Option ℕ × Semaphores
sem_open name value granted s =
    if granted
    then elim (s.known name) [
      | some k ↦ (some k, s)
      | none ↦ (
        some s.fresh,
        record {
          known = rename s.known name (some s.fresh);
          value = update s.value s.fresh value;
          closes = s.closes;
          fresh = suc s.fresh;
        },
      )
    ]
    else (none, s)

unfoldable pub sem_unlink : List ℕ → Semaphores → Semaphores
sem_unlink name s = record s { known = rename s.known name none }

-- What sem_new returns for what `sem_open` gives.
pub sem_flag : ℕ → Option ℕ → ℕ
sem_flag success none = sem_new_fail
sem_flag success (some k) = success

-- sem_new: the semaphore, if there is one, and the flag.
pub sem_new : Option (List ℕ) → List ℕ → ℕ → ℕ → Bool → Semaphores → Option ℕ × ℕ × Semaphores
sem_new user sem_label init_value success granted s =
    let (k, t) = sem_open (ipc_name user (some sem_label)) init_value granted s in
    (k, sem_flag success k, t)

-- `sem_close`: of a field that no `sem_open` has set, what it does is undefined, `none`.
pub sem_close : Option ℕ → Semaphores → Option Semaphores
sem_close none s = none
sem_close (some k) s = some (record s { closes = update s.closes k (suc (s.closes k)) })

-- sem_delete: the semaphore is closed, and its name is removed.
unfoldable pub sem_delete : Option (List ℕ) → Option ℕ → List ℕ → Semaphores → Option Semaphores
sem_delete user sem sem_label s = do
  t ← sem_close sem s
  some (sem_unlink (ipc_name user (some sem_label)) t)

-- Taking one from a semaphore of value `v`.
pub take_one : ℕ → ℕ → Semaphores → Option Semaphores
take_one k zero s = none
take_one k (suc v) s = some (record s { value = update s.value k v })

-- `sem_wait` whose result is not looked at: `none` when the process is blocked.
pub sem_wait : Wait → Option ℕ → Semaphores → Option Semaphores
sem_wait w none s = some s
sem_wait interrupt (some k) s = some s
sem_wait acquire (some k) s = take_one k (s.value k) s

pub sem_post : Option ℕ → Semaphores → Semaphores
sem_post none s = s
sem_post (some k) s = record s { value = update s.value k (suc (s.value k)) }

-- The end of sem_jobqueue_new where the test of the flags fails.
pub clean_up : Option (List ℕ) → ℕ → SemJobqueue → World → Option World
clean_up user r q w = do
  s ←
      if bit_and r full_sem_success == 0
      then some w.semaphores
      else sem_delete user q.full sem_full_label w.semaphores
  t ← if bit_and r empty_sem_success == 0 then some s else sem_delete user q.empty sem_empty_label s
  u ← sem_delete user q.mutex sem_mutex_label (sem_post q.mutex t)
  some (record { system = IpcJobqueue.delete (some q.ijq) w.system; semaphores = u })

-- The end of sem_jobqueue_new, with what the three calls of `sem_new` have given.
pub check_all :
    Ipc
    → Option ℕ
    → ℕ
    → Option ℕ × ℕ × Semaphores
    → System PriJobqueue
    → Option ℕ × ℕ × Semaphores
    → Option (Option SemJobqueue × World)
check_all ijq mutex r (full, r', s) t (empty, r'', u) =
    let flags = bit_or r (bit_or r' r'') in
    let q : SemJobqueue = record { mutex = mutex; full = full; empty = empty; ijq = ijq } in
    if bit_and flags all_sem_success == 0
    then clean_up t.user flags q (record { system = t; semaphores = u }) >>= (λ v. some (none, v))
    else some (some q, record { system = t; semaphores = sem_post mutex u })

-- The part of sem_jobqueue_new after the `sem_wait`.
pub open_others : Chances → Ipc → Option ℕ → ℕ → World → Option (Option SemJobqueue × World)
open_others c ijq mutex r w =
    let user = w.system.user in
    let f = sem_new user sem_full_label 0 full_sem_success c.full w.semaphores in
    let (space, t) = IpcJobqueue.space (some ijq) w.system in
    check_all ijq mutex r f t (sem_new user sem_empty_label space empty_sem_success c.empty f.2)

-- From the `sem_wait`, which blocks the process or not, to the end.
pub after_wait :
    Chances
    → Ipc
    → Option ℕ
    → ℕ
    → System PriJobqueue
    → Option Semaphores
    → Option (Option SemJobqueue × World)
after_wait c ijq mutex r t none = none
after_wait c ijq mutex r t (some u) =
    open_others c ijq mutex r (record { system = t; semaphores = u })

-- The part of sem_jobqueue_new after the first `sem_new`.
pub check_mutex :
    Chances
    → Ipc
    → System PriJobqueue
    → Option ℕ × ℕ × Semaphores
    → Option (Option SemJobqueue × World)
check_mutex c ijq t (mutex, r, u) =
    if r == mutex_sem_success
    then after_wait c ijq mutex r t (sem_wait c.wait mutex u)
    else some (none, record { system = IpcJobqueue.delete (some ijq) t; semaphores = u })

-- The part of sem_jobqueue_new after `ipc_jobqueue_new`.
pub open_mutex :
    Chances → Option Ipc × System PriJobqueue → Semaphores → Option (Option SemJobqueue × World)
open_mutex c (none, t) s = some (none, record { system = t; semaphores = s })
open_mutex c (some ijq, t) s =
    check_mutex c ijq t (sem_new t.user sem_mutex_label 1 mutex_sem_success c.mutex s)

-- sem_jobqueue_new: `none` when it does not return, blocked in its `sem_wait` or ended by a fault
pub new : Option Proc → Chances → World → Option (Option SemJobqueue × World)
new proc c w =
    if c.malloc
    then IpcJobqueue.new proc c.ipc w.system >>= (λ out. open_mutex c out w.semaphores)
    else some (none, w)

-- sem_jobqueue_delete: `none` when what it does is undefined
pub delete : Option SemJobqueue → World → Option World
delete none w = some w
delete (some q) w = do
  s ← sem_delete w.system.user q.mutex sem_mutex_label w.semaphores
  t ← sem_delete w.system.user q.full sem_full_label s
  u ← sem_delete w.system.user q.empty sem_empty_label t
  some (record { system = IpcJobqueue.delete (some q.ijq) w.system; semaphores = u })
