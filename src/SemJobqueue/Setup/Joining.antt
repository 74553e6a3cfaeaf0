-- ===== src/SemJobqueue/Setup/Joining.antt =====
-- sem_jobqueue_new of the processes that are not init: they come to use the queue that is there.
use csc.Base.{ℕ, suc, ◌≡◌, refl, ap, ap₂, ◌∙◌, Bool, true, false, Option, some, List, arith, ◌>>=◌}
use csc.CString.{codes}
use csc.Job.{update}
use csc.PriJobqueue.{PriJobqueue}
use csc.Proc.{Proc}
use csc.Ipc.{Ipc, System, ipc_name}
use csc.IpcJobqueue
use csc.IpcJobqueue.Laws.{space_keeps}
use csc.IpcJobqueue.New.{new-joins}
use csc.SemJobqueue.{acquire, Wait}
use csc.SemJobqueue.Setup.{
  sem_flag, sem_mutex_label, sem_full_label, sem_empty_label, SemJobqueue, Semaphores, World,
  Chances, sem_open, sem_new, sem_wait, take_one, sem_post, open_others, check_all, after_wait,
  check_mutex, open_mutex, new,
}
use csc.SemJobqueue.Setup.Opening.{AllChances}
use csc.SemJobqueue.Setup.Laws.{new-granted}

-- Under their names the system has the object `o` and the semaphores `m`, `f` and `e`.
pub record Offers (o m f e : ℕ) (w : World) : Type 0 where
  pub ijq : w.system.named (ipc_name w.system.user (some (codes "ipc_jobq"))) ≡ some o
  pub mutex : w.semaphores.known (ipc_name w.system.user (some sem_mutex_label)) ≡ some m
  pub full : w.semaphores.known (ipc_name w.system.user (some sem_full_label)) ≡ some f
  pub empty : w.semaphores.known (ipc_name w.system.user (some sem_empty_label)) ≡ some e

-- The queue of a process `p` that uses them.
abbrev pub using : Proc → Option (List ℕ) → ℕ → ℕ → ℕ → ℕ → SemJobqueue
using p user o m f e = record {
  mutex = some m;
  full = some f;
  empty = some e;
  ijq = record { proc = p; name = ipc_name user (some (codes "ipc_jobq")); addr = o };
}

-- Names, objects and the values of semaphores are as before.
pub record Same (w w' : World) : Type 0 where
  pub named : w'.system.named ≡ w.system.named
  pub content : w'.system.content ≡ w.system.content
  pub user : w'.system.user ≡ w.system.user
  pub known : w'.semaphores.known ≡ w.semaphores.known
  pub value : (k : ℕ) → w'.semaphores.value k ≡ w.semaphores.value k

pub sem_new-known :
    (user : Option (List ℕ)) (l : List ℕ) (v flag k : ℕ) (granted : Bool) (s : Semaphores)
    → granted ≡ true
    → s.known (ipc_name user (some l)) ≡ some k
    → sem_new user l v flag granted s ≡ (some k, flag, s)
unfolding sem_new sem_flag sem_open
sem_new-known user l v flag k granted s g h = rw g (rw h refl)

-- `mutex` is taken, and given back.
abbrev lowered : ℕ → ℕ → Semaphores → Semaphores
lowered m v s = record s { value = update s.value m v }

sem_wait-acquire :
    (w : Wait) (m v : ℕ) (s : Semaphores)
    → w ≡ acquire
    → s.value m ≡ suc v
    → sem_wait w (some m) s ≡ some (lowered m v s)
unfolding sem_wait take_one
sem_wait-acquire w m v s a e = ap (λ x. sem_wait x (some m) s) a ∙ ap (λ x. take_one m x s) e

pub raised :
    (m v : ℕ) (s : Semaphores) (k : ℕ)
    → s.value m ≡ suc v
    → (sem_post (some m) (lowered m v s)).value k ≡ s.value k
unfolding sem_post
raised m v s k e = ground arith

unfoldable pub left : Ipc → ℕ → ℕ → System PriJobqueue → Semaphores → World
left i m v t s = record {
  system = (IpcJobqueue.space (some i) t).1;
  semaphores = sem_post (some m) (lowered m v s);
}

abbrev pub joined : Ipc → ℕ → ℕ → ℕ → SemJobqueue
joined i m f e = record { mutex = some m; full = some f; empty = some e; ijq = i }

module _ (c : Chances) (i : Ipc) (m f e v : ℕ) (t : System PriJobqueue) (s : Semaphores)
    (all : AllChances c) (known_mutex : s.known (ipc_name t.user (some sem_mutex_label)) ≡ some m)
    (known_full : s.known (ipc_name t.user (some sem_full_label)) ≡ some f)
    (known_empty : s.known (ipc_name t.user (some sem_empty_label)) ≡ some e)
    (free : s.value m ≡ suc v) where
  open_others-joined :
      open_others c i (some m) 1 (record { system = t; semaphores = lowered m v s })
      ≡ some (some (joined i m f e), left i m v t s)
  unfolding open_others check_all left
  open_others-joined =
      rw (sem_new-known t.user sem_full_label 0 2 f c.full (lowered m v s) all.2 known_full) (
        rw
          (sem_new-known t.user sem_empty_label (IpcJobqueue.space (some i) t).0 4 e c.empty
            (lowered m v s) all.3 known_empty)
          refl)

  pub open_mutex-joined : open_mutex c (some i, t) s ≡ some (some (joined i m f e), left i m v t s)
  unfolding open_mutex check_mutex after_wait
  open_mutex-joined =
      ap (check_mutex c i t)
        (sem_new-known t.user sem_mutex_label 1 1 m c.mutex s all.1 known_mutex)
      ∙ ap (after_wait c i (some m) 1 t) (sem_wait-acquire c.wait m v s all.4 free)
      ∙ open_others-joined

-- Where the queue is there, `mutex` is free and nothing fails, `sem_jobqueue_new` of a process that
-- is not init gives it that queue and those semaphores, and all is as before.
pub new-joined :
    (p : Proc) (c : Chances) (w : World) (o m f e v : ℕ)
    → p.is_init ≡ false
    → AllChances c
    → Offers o m f e w
    → w.semaphores.value m ≡ suc v
    → (w' : World) × (new (some p) c w ≡ some (some (using p w.system.user o m f e), w'))
      × Same w w'
unfolding left sem_post
new-joined p c w o m f e v other all offers free =
    let (t, r, named, content, user) = new-joins p c.ipc w.system o other all.5 offers.ijq in
    let i = (using p w.system.user o m f e).ijq in
    let (names, contents, users) = space_keeps i t in
    (
      left i m v t w.semaphores,
      new-granted (some p) c w all.0
          ∙ ap (λ x. x >>= (λ out. open_mutex c out w.semaphores)) r
          ∙ open_mutex-joined c i m f e v t w.semaphores all
              (ap (λ u. w.semaphores.known (ipc_name u (some sem_mutex_label))) user ∙ offers.mutex)
              (ap (λ u. w.semaphores.known (ipc_name u (some sem_full_label))) user ∙ offers.full)
              (ap (λ u. w.semaphores.known (ipc_name u (some sem_empty_label))) user ∙ offers.empty)
              free,
      record {
        named = names ∙ named;
        content = contents ∙ content;
        user = users ∙ user;
        known = refl;
        value = λ k. raised m v w.semaphores k free;
      },
    )

pub Offers-Same : (o m f e : ℕ) (w w' : World) → Offers o m f e w → Same w w' → Offers o m f e w'
Offers-Same o m f e w w' offers same = record {
  ijq = ap₂ (λ n u. n (ipc_name u (some (codes "ipc_jobq")))) same.named same.user ∙ offers.ijq;
  mutex = known sem_mutex_label ∙ offers.mutex;
  full = known sem_full_label ∙ offers.full;
  empty = known sem_empty_label ∙ offers.empty;
}
  where
    known :
        (l : List ℕ)
        → w'.semaphores.known (ipc_name w'.system.user (some l))
          ≡ w.semaphores.known (ipc_name w.system.user (some l))
    known l = ap₂ (λ n u. n (ipc_name u (some l))) same.known same.user
