-- ===== src/IpcJobqueue/New.antt =====
-- What ipc_jobqueue_new maps, and what ipc_jobqueue_delete leaves.
use csc.Base.{
  if◌then◌else◌, ◌≢◌, false, ◌∙◌, ℕ, ◌≡◌, refl, sym, ap, subst, true, Option, none, some, [], arith,
  length, ◌>>=◌,
}
use csc.CString.{codes}
use csc.PriJobqueue.{PriJobqueue, init as queue_init}
use csc.PriJobqueue.Inv.{Holds}
use csc.PriJobqueue.Refine.{init-Holds}
use csc.Proc.{Proc}
use csc.Ipc.{Ipc, System, Grants, ipc_name}
use csc.Ipc.Share
use csc.Ipc.Share.{AllGranted, Created, new-Created, delete-same_user}
use csc.IpcJobqueue.{delete, zeroed, queue_bytes, store, initialised, new}
use csc.IpcJobqueue.Laws.{store-here, store-others, store-user}

abbrev pub queue_ipc : Proc → System PriJobqueue → ℕ → Ipc
queue_ipc p s o = record { proc = p; name = ipc_name s.user (some (codes "ipc_jobq")); addr = o }

-- What ipc_jobqueue_new makes of the end of ipc_new.
abbrev pub queued :
    Proc → Option (Option Ipc × System PriJobqueue) → Option (Option Ipc × System PriJobqueue)
queued p out = out >>= (λ r. some (initialised (some p) r))

-- The object `o`, which holds no jobs, is mapped, and has the name.
pub record NewQueue (p : Proc) (s : System PriJobqueue) (o : ℕ)
    (out : Option (Option Ipc × System PriJobqueue)) : Type 0 where
  pub after : System PriJobqueue
  pub made : out ≡ some (some (queue_ipc p s o), after)
  pub holds : Holds (after.content o) []
  pub same_user : after.user ≡ s.user
  pub found : after.named (ipc_name s.user (some (codes "ipc_jobq"))) ≡ some o
  pub others : (q : ℕ) → q ≢ o → after.content q ≡ s.content q

pub Created-NewQueue :
    (p : Proc) (s : System PriJobqueue) (o : ℕ) (out : Option (Option Ipc × System PriJobqueue))
    → p.is_init ≡ true
    → Created zeroed p (some (codes "ipc_jobq")) s o out
    → NewQueue p s o (queued p out)
unfolding initialised store
Created-NewQueue p s o out init c =
    let t = c.after in
    let (q, f, holds) = init-Holds (t.content o) (ap (λ u. length u.jobs) c.zeroed) in
    let stored : initialised (some p) (some (queue_ipc p s o), t)
        ≡ (some (queue_ipc p s o), store o (some q) t) =
      rw init (rw f refl) in
    record {
      after = store o (some q) t;
      made = ap (queued p) c.made ∙ ap some stored;
      holds = subst (λ u. Holds u []) (sym (store-here o q t)) holds;
      same_user = store-user o (some q) t ∙ c.same_user;
      found = c.found;
      others = λ r ne. store-others o r (some q) t ne ∙ c.others r ne;
    }

-- For the init process, where nothing fails, `ipc_jobqueue_new` maps a new object that holds no
-- jobs.
pub new-NewQueue :
    (p : Proc) (g : Grants) (s : System PriJobqueue)
    → p.is_init ≡ true
    → AllGranted g
    → NewQueue p s s.next (new (some p) g s)
unfolding new
new-NewQueue p g s init granted =
    Created-NewQueue p s s.next _ init (
      new-Created zeroed p (some (codes "ipc_jobq")) queue_bytes g s init (λ e. omega arith)
        granted)

-- Another process than init initialises nothing.
pub initialised_other :
    (p : Proc) (out : Option Ipc × System PriJobqueue)
    → p.is_init ≡ false
    → initialised (some p) out ≡ out
unfolding initialised
initialised_other p (none, s) other = refl
initialised_other p (some i, s) other =
    ap (λ b. (some i, if b then store i.addr (queue_init (some (s.content i.addr))) s else s)) other

-- For another process, where nothing fails and an object has the name, `ipc_jobqueue_new` maps
-- that object and changes no name and no object.
pub new-joins :
    (p : Proc) (g : Grants) (s : System PriJobqueue) (o : ℕ)
    → p.is_init ≡ false
    → AllGranted g
    → s.named (ipc_name s.user (some (codes "ipc_jobq"))) ≡ some o
    → (t : System PriJobqueue) × (new (some p) g s
        ≡ some (
          some (record { proc = p; name = ipc_name s.user (some (codes "ipc_jobq")); addr = o }),
          t,
        ))
      × (t.named ≡ s.named)
      × (t.content ≡ s.content)
      × (t.user ≡ s.user)
unfolding new
new-joins p g s o other granted named =
    let (t, joined, names, contents, user) =
      Share.new-joins zeroed p (some (codes "ipc_jobq")) queue_bytes o g s other (λ e. omega arith)
        granted named in
    (
      t,
      ap (queued p) joined ∙ ap some (initialised_other p (some (queue_ipc p s o), t) other),
      names,
      contents,
      user,
    )

-- Deleting leaves the environment of the process as it is.
pub delete_keeps_user : (i : Option Ipc) (s : System PriJobqueue) → (delete i s).user ≡ s.user
unfolding delete
delete_keeps_user none s = refl
delete_keeps_user (some i) s = delete-same_user (some i) s

-- Deleting frees the name of the object, and changes no object.
pub delete_frees :
    (i : Ipc) (s : System PriJobqueue)
    → ((delete (some i) s).named i.name ≡ none) × ((delete (some i) s).content ≡ s.content)
unfolding delete
delete_frees i s = Share.delete-frees i s
