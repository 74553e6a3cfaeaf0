-- ===== src/Rmsho.antt =====
-- rmsho.c: the program that removes a named semaphore or a named object in shared memory.
pub mod Laws
pub mod Recovery
mod Tests
use csc.Base.{
  ℕ, ◌-◌, Bool, true, false, not, ◌&&◌, ◌||◌, some, List, [], ◌==◌, ltb, if◌then◌else◌, length,
  get_or,
}
use Prim.Native.Nat.{bit_and, bit_or}
use csc.CString.{codes, strnlen, strncmp_eq}
use csc.Ipc.{ipc_name, shm_unlink}
use csc.SemJobqueue.Setup.{World, sem_unlink}

-- SEM
abbrev pub sem : ℕ
sem = 4

-- NAME_MASK
abbrev pub name_mask : ℕ
name_mask = 3

-- EXIT_FAILURE
abbrev pub exit_failure : ℕ
exit_failure = 1

-- `argv[i]`
abbrev pub arg : List (List ℕ) → ℕ → List ℕ
arg argv i = get_or argv i []

-- get_selector, for an `argc` that is not 0
pub get_selector : ℕ → List (List ℕ) → ℕ
get_selector argc argv =
    let r = argc - 1 in
    if argc == 3 && (not (strnlen (arg argv 1) 3 == 0) && strncmp_eq (arg argv 1) (codes "-s") 3)
    then bit_or r sem
    else r

-- The end of `main`, with the name of the object.
pub unlink_selected : ℕ → List ℕ → World → World
unlink_selected selector name w =
    if bit_and selector sem == 0
    then record w { system = shm_unlink name w.system }
    else record w { semaphores = sem_unlink name w.semaphores }

-- What follows the check of `argc` in `main`.
pub remove_named : ℕ → List (List ℕ) → World → ℕ × World
remove_named selector argv w = (
  0,
  unlink_selected selector (ipc_name w.system.user (some (arg argv (bit_and selector name_mask))))
      w,
)

-- main, without what it prints: the exit status and what it leaves.
pub main : List (List ℕ) → World → ℕ × World
main argv w =
    let argc = length argv in
    if ltb argc 2 || ltb 3 argc
    then (exit_failure, w)
    else remove_named (get_selector argc argv) argv w
