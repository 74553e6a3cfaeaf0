-- ===== src/Ipc.antt =====
-- ipc.h and ipc.c: objects in shared memory, and what the operating system does for them. An
-- object of the system is a number; a process has it mapped under that number.
pub mod Share
pub mod Names
pub mod Ends
pub mod Outcomes
use csc.Base.{
  ℕ, zero, suc, Bool, true, false, ◌&&◌, Option, none, some, List, [], ◌∷◌, ◌==◌, if◌then◌else◌,
  replicate,
}
use csc.CString.{same_text, snprintf_s, until_nul}
use csc.Job.{max_name_size}
use csc.Proc
use csc.Proc.{Proc, Clock}
use csc.ShobjectName.{shobject_name}

-- EINVAL
abbrev pub einval : ℕ
einval = 22

-- struct ipc; `addr` is the object that is mapped.
pub record Ipc : Type 0 where
  pub proc : Proc
  pub name : List ℕ
  pub addr : ℕ

-- What a process sees of the system: the names of shared objects and the objects under them, the
-- contents of every object and whether it has been given its size, its environment and errno.
pub record System {ℓ} (A : Type ℓ) : Type ℓ where
  pub named : List ℕ → Option ℕ
  pub content : ℕ → A
  pub sized : ℕ → Bool
  pub next : ℕ
  pub user : Option (List ℕ)
  pub errno : ℕ
  pub clock : Clock

-- Whether `malloc`, the `shm_unlink` of ipc_new, `shm_open`, `ftruncate` and `mmap` succeed where
-- they may fail.
pub record Grants : Type 0 where
  pub malloc : Bool
  pub shm_unlink : Bool
  pub shm_open : Bool
  pub ftruncate : Bool
  pub mmap : Bool

-- NON_INIT_DELAY
abbrev pub non_init_delay : ℕ
non_init_delay = 1000

abbrev pub rename : (List ℕ → Option ℕ) → List ℕ → Option ℕ → List ℕ → Option ℕ
rename f name v n = if same_text name n then v else f n

-- The name that `shobject_name` leaves in the array of a fresh `ipc_t`, as text.
unfoldable pub ipc_name : Option (List ℕ) → Option (List ℕ) → List ℕ
ipc_name user label = elim (shobject_name user label (some (replicate max_name_size 0)) true) [
  | none ↦ []
  | some buf ↦ until_nul buf
]

module _ {ℓ} {A : Type ℓ} where
  unfoldable pub shm_unlink : List ℕ → System A → System A
  shm_unlink name s = record s { named = rename s.named name none }

  -- `shm_open` with O_CREAT or without it: the object of that name, or a new one of size 0.
  unfoldable pub shm_open : Bool → List ℕ → Bool → System A → Option ℕ × System A
  shm_open creates name granted s =
      if granted
      then elim (s.named name) [
        | some o ↦ (some o, s)
        | none ↦
            if creates
            then (
              some s.next,
              record s {
                named = rename s.named name (some s.next);
                sized = λ p. if s.next == p then false else s.sized p;
                next = suc s.next;
              },
            )
            else (none, s)
      ]
      else (none, s)

  ftruncate : ℕ → Bool → System A → System A
  ftruncate o granted s =
      if granted then record s { sized = λ p. if o == p then true else s.sized p } else s

  -- The part of `ipc_new` before `shm_open`: the init process removes the name, if it may, and
  -- the others wait.
  pub prepare : Proc → List ℕ → Bool → System A → System A
  prepare proc name unlinks s =
      if proc.is_init
      then (if unlinks then shm_unlink name s else s)
      else record s { clock = Proc.delay_ms non_init_delay s.clock }

  -- The `memset` of the init process: in an object that has no size yet it ends the process.
  clear : A → Ipc → System A → Option (Option Ipc × System A)
  clear zeros ipc s =
      if s.sized ipc.addr
      then some (some ipc, record s { content = λ p. if ipc.addr == p then zeros else s.content p })
      else none

  -- The part after `shm_open`: size and map the object, and let the init process set it to zeros.
  pub attach : A → Proc → List ℕ → Grants → Option ℕ × System A → Option (Option Ipc × System A)
  attach zeros proc name g (none, s) = some (none, s)
  attach zeros proc name g (some o, s) =
      let ipc : Ipc = record { proc = proc; name = name; addr = o } in
      if proc.is_init
      then (let t = ftruncate o g.ftruncate s in
          if g.mmap then clear zeros ipc t else some (none, t))
      else some (if g.mmap then some ipc else none, s)

  -- ipc_new, for objects of one type; `zeros` is what a zeroed object holds. It is `none` where a
  -- fault ends the process.
  pub new :
      A → Option Proc → Option (List ℕ) → ℕ → Grants → System A → Option (Option Ipc × System A)
  new zeros none label size g s = some (none, record s { errno = einval })
  new zeros (some proc) label size g s =
      let name = ipc_name s.user label in
      if size == 0
      then some (none, record s { errno = einval })
      else (if g.malloc
          then attach zeros proc name g
              (shm_open proc.is_init name g.shm_open (prepare proc name g.shm_unlink s))
          else some (none, s))

  -- ipc_delete
  pub delete : Option Ipc → System A → System A
  delete none s = s
  delete (some ipc) s = shm_unlink ipc.name s
