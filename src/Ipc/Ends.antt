-- ===== src/Ipc/Ends.antt =====
-- The ways in which ipc_new can end.
use csc.Base.{ℕ, ◌≡◌, Bool, true, false, ◌&&◌, ◌||◌, Option, none, some, List}
use csc.Proc
use csc.Proc.{Proc}
use csc.Ipc.{Ipc, System, Grants, einval, non_init_delay, ipc_name}
use csc.Ipc.Share.{Created}

-- The object `o` that has the name is mapped, after a delay, and nothing else changes.
abbrev pub Joined {ℓ} :
    {A : Type ℓ} → Proc → Option (List ℕ) → ℕ → System A → Option (Option Ipc × System A) → Type ℓ
Joined p label o s out =
    out
    ≡ some (
      some (record { proc = p; name = ipc_name s.user label; addr = o }),
      record s { clock = Proc.delay_ms non_init_delay s.clock },
    )

-- Nothing is mapped, and no object changes.
pub record Unmade {ℓ} {A : Type ℓ} (s : System A) (out : Option (Option Ipc × System A))
    : Type ℓ where
  pub after : System A
  pub null : out ≡ some (none, after)
  pub content : after.content ≡ s.content
  pub same_user : after.user ≡ s.user

-- By whether the object `o` has a size: it is set to zeros, or a fault ends the process.
abbrev pub Zeroed {ℓ} :
    {A : Type ℓ}
    → A
    → Proc
    → Option (List ℕ)
    → System A
    → ℕ
    → Bool
    → Option (Option Ipc × System A)
    → Type ℓ
Zeroed zeros p label s o true out = Created zeros p label s o out
Zeroed zeros p label s o false out = out ≡ none

-- For the init process, by whether `shm_unlink` and `ftruncate` succeed, and the object that has
-- the name: that object if its name stays, and otherwise a new one, which has no size yet.
abbrev pub Taken {ℓ} :
    {A : Type ℓ}
    → A
    → Proc
    → Option (List ℕ)
    → System A
    → Bool
    → Bool
    → Option ℕ
    → Option (Option Ipc × System A)
    → Type ℓ
Taken zeros p label s true sizes found out = Zeroed zeros p label s s.next sizes out
Taken zeros p label s false sizes none out = Zeroed zeros p label s s.next sizes out
Taken zeros p label s false sizes (some o) out = Zeroed zeros p label s o (sizes || s.sized o) out

-- By whether `malloc`, `shm_open` and `mmap` succeed, whether the process is init, and the object
-- that has the name.
abbrev pub Mapped {ℓ} :
    {A : Type ℓ}
    → A
    → Proc
    → Option (List ℕ)
    → Grants
    → System A
    → Bool
    → Bool
    → Option ℕ
    → Option (Option Ipc × System A)
    → Type ℓ
Mapped zeros p label g s false init found out = Unmade s out
Mapped zeros p label g s true true found out =
    Taken zeros p label s g.shm_unlink g.ftruncate found out
Mapped zeros p label g s true false (some o) out = Joined p label o s out
Mapped zeros p label g s true false none out = Unmade s out

-- For a process, or NULL, and by whether the size is 0.
abbrev pub Result {ℓ} :
    {A : Type ℓ}
    → A
    → Option Proc
    → Option (List ℕ)
    → Bool
    → Grants
    → System A
    → Option (Option Ipc × System A)
    → Type ℓ
Result zeros none label no_size g s out = out ≡ some (none, record s { errno = einval })
Result zeros (some p) label true g s out = out ≡ some (none, record s { errno = einval })
Result zeros (some p) label false g s out =
    Mapped zeros p label g s (g.malloc && (g.shm_open && g.mmap)) p.is_init
      (s.named (ipc_name s.user label)) out
