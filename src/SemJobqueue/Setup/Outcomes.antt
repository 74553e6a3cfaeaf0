-- ===== src/SemJobqueue/Setup/Outcomes.antt =====
-- How sem_jobqueue_new ends, whichever of its calls fail.
use csc.Base.{
  ℕ, suc, ◌≡◌, refl, sym, ap, subst, ◌∙◌, Bool, true, false, Option, none, some, List, arith,
  if◌then◌else◌, ◌>>=◌,
}
use csc.Job.{update}
use csc.PriJobqueue.{PriJobqueue}
use csc.Proc.{Proc}
use csc.Ipc.{Ipc, System, ipc_name}
use csc.IpcJobqueue
use csc.IpcJobqueue.New.{delete_frees}
use csc.SemJobqueue.{Wait, acquire, interrupt}
use csc.SemJobqueue.Setup.{
  SemJobqueue, Semaphores, World, Chances, sem_mutex_label, sem_wait, take_one, sem_flag, sem_new,
  sem_open, open_others, after_wait, check_mutex, open_mutex, new,
}
use csc.SemJobqueue.Setup.Opening.{added, sem_new-added}
use csc.SemJobqueue.Setup.Ended.{is_some, Ended, open_others-Ended}

-- The value of `mutex` at the end: 1 where the wait was not interrupted.
abbrev pub mutex_left : Wait → ℕ
mutex_left acquire = 1
mutex_left interrupt = 2

sem_wait-mutex :
    (w : Wait) (name : List ℕ) (s : Semaphores)
    → (u : Semaphores) × (x : ℕ) × (sem_wait w (some s.fresh) (added name 1 s) ≡ some u)
      × (u.fresh ≡ suc s.fresh)
      × (u.value s.fresh ≡ x)
      × (suc x ≡ mutex_left w)
unfolding sem_wait take_one
sem_wait-mutex acquire name s =
    let one : (added name 1 s).value s.fresh ≡ 1 = ground arith in
    (
      record (added name 1 s) { value = update (added name 1 s).value s.fresh 0 },
      0,
      ap (λ v. take_one s.fresh v (added name 1 s)) one,
      refl,
      ground arith,
      refl,
    )
sem_wait-mutex interrupt name s = (added name 1 s, 1, refl, refl, ground arith, refl)

-- What `sem_jobqueue_new` has to do, by whether `malloc` succeeds, what `ipc_jobqueue_new` gives,
-- and whether `mutex` is opened.
abbrev pub Outcome :
    Chances
    → World
    → Bool
    → Option (Option Ipc × System PriJobqueue)
    → Bool
    → Option (Option SemJobqueue × World)
    → Type 0
Outcome c w false made opened out = out ≡ some (none, w)
Outcome c w true none opened out = out ≡ none
Outcome c w true (some (none, t)) opened out =
    out ≡ some (none, record { system = t; semaphores = w.semaphores })
Outcome c w true (some (some i, t)) false out =
    (w' : World) × (out ≡ some (none, w'))
    × (w'.system.named i.name ≡ none)
    × (w'.system.content ≡ t.content)
    × (w'.semaphores ≡ w.semaphores)
Outcome c w true (some (some i, t)) true out =
    (q : SemJobqueue) × (w' : World) × (out ≡ some (some q, w'))
    × (q.ijq ≡ i)
    × (w'.system.content ≡ t.content)
    × (q.mutex ≡ some w.semaphores.fresh)
    × (w'.semaphores.value w.semaphores.fresh ≡ mutex_left c.wait)
    × (is_some q.full ≡ c.full)
    × (is_some q.empty ≡ c.empty)

-- No semaphore has the name of `mutex`, for the user that there is after `ipc_jobqueue_new`.
abbrev pub NoMutex : World → Option (Option Ipc × System PriJobqueue) → Type 0
NoMutex w none = Unit
NoMutex w (some (r, t)) = w.semaphores.known (ipc_name t.user (some sem_mutex_label)) ≡ none

Ended-Outcome :
    (c : Chances) (w : World) (i : Ipc) (t : System PriJobqueue) (x : ℕ)
    (out : Option (Option SemJobqueue × World))
    → suc x ≡ mutex_left c.wait
    → Ended w.semaphores.fresh x c i t out
    → Outcome c w true (some (some i, t)) true out
Ended-Outcome c w i t x out left v =
    (v.queue, v.world, v.given, v.ijq, v.content, v.mutex, v.value ∙ left, v.full, v.empty)

check_mutex-Outcome :
    (c : Chances) (w : World) (i : Ipc) (t : System PriJobqueue) (opened : Bool)
    → w.semaphores.known (ipc_name t.user (some sem_mutex_label)) ≡ none
    → Outcome c w true
        (some (some i, t))
        opened
        (check_mutex c i t (sem_new t.user sem_mutex_label 1 1 opened w.semaphores))
unfolding check_mutex after_wait sem_new sem_open sem_flag
check_mutex-Outcome c w i t false free =
    let (freed, same) = delete_frees i t in (_, refl, freed, same, refl)
check_mutex-Outcome c w i t true free =
    let s = w.semaphores in
    let name = ipc_name t.user (some sem_mutex_label) in
    let (u, x, waited, grown, value, left) = sem_wait-mutex c.wait name s in
    let ended : Ended s.fresh x c i t
        (open_others c i (some s.fresh) 1 (record { system = t; semaphores = u })) =
      subst
        (λ y.
          Ended s.fresh y c i t
            (open_others c i (some s.fresh) 1 (record { system = t; semaphores = u })))
        value (open_others-Ended c i s.fresh u t (omega (arith, grown))) in
    subst (λ o. Outcome c w true (some (some i, t)) true (check_mutex c i t o))
      (sym (sem_new-added t.user sem_mutex_label 1 1 true s refl free))
      (subst (λ o. Outcome c w true (some (some i, t)) true (after_wait c i (some s.fresh) 1 t o))
        (sym waited) (Ended-Outcome c w i t x _ left ended))

open_mutex-Outcome :
    (c : Chances) (w : World) (r : Option Ipc) (t : System PriJobqueue)
    → w.semaphores.known (ipc_name t.user (some sem_mutex_label)) ≡ none
    → Outcome c w true (some (r, t)) c.mutex (open_mutex c (r, t) w.semaphores)
unfolding open_mutex
open_mutex-Outcome c w none t free = refl
open_mutex-Outcome c w (some i) t free = check_mutex-Outcome c w i t c.mutex free

after_ipc-Outcome :
    (c : Chances) (w : World) (made : Option (Option Ipc × System PriJobqueue))
    → NoMutex w made
    → Outcome c w true made c.mutex (made >>= (λ out. open_mutex c out w.semaphores))
after_ipc-Outcome c w none free = refl
after_ipc-Outcome c w (some (r, t)) free = open_mutex-Outcome c w r t free

malloc_test-Outcome :
    (c : Chances) (w : World) (made : Option (Option Ipc × System PriJobqueue)) (given : Bool)
    → NoMutex w made
    → Outcome c w given made c.mutex
        (if given then made >>= (λ out. open_mutex c out w.semaphores) else some (none, w))
malloc_test-Outcome c w made true free = after_ipc-Outcome c w made free
malloc_test-Outcome c w made false free = refl

-- Where no semaphore has the name of `mutex`: `sem_jobqueue_new`, of any process, returns NULL
-- and opens no semaphore where `malloc`, `ipc_jobqueue_new` or the opening of `mutex` fails, and
-- in the last case the name of the shared object is free again; where a fault in
-- `ipc_jobqueue_new` ends the process, it does not return. In all other cases it returns a queue
-- with a new `mutex`, and with `full` and `empty` set if and only if these could be opened;
-- `mutex` is at 1 or, if the `sem_wait` was interrupted, at 2.
pub new-Outcome :
    (p : Option Proc) (c : Chances) (w : World)
    → NoMutex w (IpcJobqueue.new p c.ipc w.system)
    → Outcome c w c.malloc (IpcJobqueue.new p c.ipc w.system) c.mutex (new p c w)
unfolding new
new-Outcome p c w free = malloc_test-Outcome c w (IpcJobqueue.new p c.ipc w.system) c.malloc free
