-- ===== src/IpcJobqueue/Outcomes.antt =====
-- How ipc_jobqueue_new ends, for all arguments and whichever of its calls fail.
use csc.Base.{ℕ, ◌≡◌, refl, ap, ◌∙◌, Bool, true, false, ◌&&◌, ◌||◌, Option, none, some, ◌>>=◌}
use csc.CString.{codes}
use csc.PriJobqueue.{PriJobqueue}
use csc.Proc.{Proc}
use csc.Ipc.{Ipc, System, Grants, einval, ipc_name}
use csc.Ipc.Ends.{Joined, Unmade, Zeroed, Taken, Mapped}
use csc.Ipc.Outcomes.{new-Result}
use csc.IpcJobqueue.{zeroed, queue_bytes, initialised, new}
use csc.IpcJobqueue.New.{queued, NewQueue, Created-NewQueue, initialised_other}

-- By whether the object `o` has a size: it is made an empty queue, or a fault ends the process.
abbrev pub Emptied :
    Proc → System PriJobqueue → ℕ → Bool → Option (Option Ipc × System PriJobqueue) → Type 0
Emptied p s o true out = NewQueue p s o out
Emptied p s o false out = out ≡ none

-- For the init process, by whether `shm_unlink` and `ftruncate` succeed, and the object that has
-- the name: that object if its name stays, and otherwise a new one, which has no size yet.
abbrev pub Takes :
    Proc
    → System PriJobqueue
    → Bool
    → Bool
    → Option ℕ
    → Option (Option Ipc × System PriJobqueue)
    → Type 0
Takes p s true sizes found out = Emptied p s s.next sizes out
Takes p s false sizes none out = Emptied p s s.next sizes out
Takes p s false sizes (some o) out = Emptied p s o (sizes || s.sized o) out

-- By whether `malloc`, `shm_open` and `mmap` succeed, whether the process is init, and the object
-- that has the name.
abbrev pub Shares :
    Proc
    → Grants
    → System PriJobqueue
    → Bool
    → Bool
    → Option ℕ
    → Option (Option Ipc × System PriJobqueue)
    → Type 0
Shares p g s false init found out = Unmade s out
Shares p g s true true found out = Takes p s g.shm_unlink g.ftruncate found out
Shares p g s true false (some o) out = Joined p (some (codes "ipc_jobq")) o s out
Shares p g s true false none out = Unmade s out

-- What the contract of `ipc_jobqueue_new` says of a process or NULL.
abbrev pub Encapsulated :
    Option Proc → Grants → System PriJobqueue → Option (Option Ipc × System PriJobqueue) → Type 0
Encapsulated none g s out = out ≡ some (none, record s { errno = einval })
Encapsulated (some p) g s out =
    Shares p g s (g.malloc && (g.shm_open && g.mmap)) p.is_init
      (s.named (ipc_name s.user (some (codes "ipc_jobq")))) out

Unmade-queued :
    (p : Proc) (s : System PriJobqueue) (out : Option (Option Ipc × System PriJobqueue))
    → Unmade s out
    → Unmade s (queued p out)
unfolding initialised
Unmade-queued p s out u = record {
  after = u.after;
  null = ap (queued p) u.null;
  content = u.content;
  same_user = u.same_user;
}

Zeroed-Emptied :
    (p : Proc) (s : System PriJobqueue) (o : ℕ) (sizes : Bool)
    (out : Option (Option Ipc × System PriJobqueue))
    → p.is_init ≡ true
    → Zeroed zeroed p (some (codes "ipc_jobq")) s o sizes out
    → Emptied p s o sizes (queued p out)
Zeroed-Emptied p s o true out e m = Created-NewQueue p s o out e m
Zeroed-Emptied p s o false out e m = ap (queued p) m

Taken-Takes :
    (p : Proc) (s : System PriJobqueue) (unlinks sizes : Bool) (found : Option ℕ)
    (out : Option (Option Ipc × System PriJobqueue))
    → p.is_init ≡ true
    → Taken zeroed p (some (codes "ipc_jobq")) s unlinks sizes found out
    → Takes p s unlinks sizes found (queued p out)
Taken-Takes p s true sizes found out e m = Zeroed-Emptied p s s.next sizes out e m
Taken-Takes p s false sizes none out e m = Zeroed-Emptied p s s.next sizes out e m
Taken-Takes p s false sizes (some o) out e m = Zeroed-Emptied p s o (sizes || s.sized o) out e m

Mapped-Shares :
    (p : Proc) (g : Grants) (s : System PriJobqueue) (ok init : Bool) (found : Option ℕ)
    (out : Option (Option Ipc × System PriJobqueue))
    → p.is_init ≡ init
    → Mapped zeroed p (some (codes "ipc_jobq")) g s ok init found out
    → Shares p g s ok init found (queued p out)
Mapped-Shares p g s false init found out e m = Unmade-queued p s out m
Mapped-Shares p g s true true found out e m = Taken-Takes p s g.shm_unlink g.ftruncate found out e m
Mapped-Shares p g s true false (some o) out e m =
    ap (queued p) m ∙ ap some (initialised_other p _ e)
Mapped-Shares p g s true false none out e m = Unmade-queued p s out m

-- For all arguments and whichever calls fail: `ipc_jobqueue_new` of a NULL process returns NULL,
-- with EINVAL in errno, and changes nothing else. Where `malloc`, `shm_open` or `mmap` fails, or
-- where no object has the name of the queue and the process is not init, it returns NULL and no
-- object changes. In all other cases another process than init maps the object that has the name,
-- after its delay, and nothing changes; and the init process takes a new object, or the object
-- that has the name where `shm_unlink` fails: if `ftruncate` succeeds or the object had its size,
-- the object is mapped, has the name and holds an empty queue, and no other object changes, and
-- if not, a fault ends the process.
pub new-Encapsulated :
    (proc : Option Proc) (g : Grants) (s : System PriJobqueue)
    → Encapsulated proc g s (new proc g s)
unfolding new initialised
new-Encapsulated none g s =
    ap (λ out. out >>= (λ r. some (initialised none r)))
      (new-Result zeroed none (some (codes "ipc_jobq")) queue_bytes g s)
new-Encapsulated (some p) g s =
    Mapped-Shares p g s _ p.is_init _ _ refl
      (new-Result zeroed (some p) (some (codes "ipc_jobq")) queue_bytes g s)
