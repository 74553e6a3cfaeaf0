-- ===== src/SemJobqueue/Setup/Delete.antt =====
-- What sem_jobqueue_delete frees, and that a queue can be made anew.
use csc.Base.{ℕ, suc, ◌≡◌, refl, sym, subst, true, Option, none, some, List, Bool-cases, inl, inr}
use csc.CString.{same_text}
use csc.Job.{update}
use csc.Proc.{Proc}
use csc.Ipc.{ipc_name}
use csc.Ipc.Share.{same_text_refl}
use csc.IpcJobqueue
use csc.IpcJobqueue.New.{delete_keeps_user}
use csc.SemJobqueue.Setup.{
  sem_mutex_label, sem_full_label, sem_empty_label, SemJobqueue, Semaphores, World, Chances,
  sem_unlink, sem_close, sem_delete, new, delete,
}
use csc.SemJobqueue.Setup.Opening.{Unknown, AllChances}
use csc.SemJobqueue.Setup.Laws.{IsSetUp, new-IsSetUp}

abbrev pub without : Option (List ℕ) → List ℕ → Semaphores → Semaphores
without user l s = sem_unlink (ipc_name user (some l)) s

-- Unlinking a name frees it, and no name that is free is taken.
pub unlink-free :
    (user : Option (List ℕ)) (l : List ℕ) (s : Semaphores)
    → (without user l s).known (ipc_name user (some l)) ≡ none
unfolding sem_unlink
unlink-free user l s = rw (same_text_refl (ipc_name user (some l))) refl

pub unlink-still :
    (user : Option (List ℕ)) (l : List ℕ) (s : Semaphores) (n : List ℕ)
    → s.known n ≡ none
    → (without user l s).known n ≡ none
unfolding sem_unlink
unlink-still user l s n h = elim (Bool-cases (same_text (ipc_name user (some l)) n)) [
  | inl e ↦ rw e refl
  | inr e ↦ rw e h
]

-- One more call of `sem_close` for the semaphore.
abbrev pub once_more : ℕ → (ℕ → ℕ) → ℕ → ℕ
once_more k closes = update closes k (suc (closes k))

-- What sem_jobqueue_delete leaves of a queue whose three semaphores are `m`, `f` and `e`.
deleted : ℕ → ℕ → ℕ → SemJobqueue → World → World
deleted m f e q w = record {
  system = IpcJobqueue.delete (some q.ijq) w.system;
  semaphores =
      record (without w.system.user sem_empty_label (
        without w.system.user sem_full_label
          (without w.system.user sem_mutex_label w.semaphores))) {
            closes = once_more e (once_more f (once_more m w.semaphores.closes));
          };
}

delete-deleted :
    (q : SemJobqueue) (w : World) (m f e : ℕ)
    → q.mutex ≡ some m
    → q.full ≡ some f
    → q.empty ≡ some e
    → delete (some q) w ≡ some (deleted m f e q w)
unfolding delete deleted sem_delete sem_close sem_unlink
delete-deleted q w m f e em ef ee = rw em (rw ef (rw ee refl))

deleted-Unknown :
    (m f e : ℕ) (q : SemJobqueue) (w : World) → Unknown w.system.user (deleted m f e q w).semaphores
unfolding deleted
deleted-Unknown m f e q w =
    let user = w.system.user in
    let s = without user sem_mutex_label w.semaphores in
    let t = without user sem_full_label s in
    (
      unlink-still user sem_empty_label t _
          (unlink-still user sem_full_label s _ (unlink-free user sem_mutex_label w.semaphores)),
      unlink-still user sem_empty_label t _ (unlink-free user sem_full_label s),
      unlink-free user sem_empty_label t,
    )

deleted-user :
    (m f e : ℕ) (q : SemJobqueue) (w : World) → (deleted m f e q w).system.user ≡ w.system.user
unfolding deleted
deleted-user m f e q w = delete_keeps_user (some q.ijq) w.system

-- `sem_jobqueue_delete` of a queue of which `mutex`, `full` and `empty` have been opened calls
-- `sem_close` once for each of the three semaphores and frees their names, so that
-- `sem_jobqueue_new` of the init process, where no call fails or is interrupted, then sets up a
-- new queue with fresh semaphores.
pub new_after_delete :
    (p : Proc) (c : Chances) (w : World) (old : SemJobqueue) (m f e : ℕ)
    → p.is_init ≡ true
    → AllChances c
    → old.mutex ≡ some m
    → old.full ≡ some f
    → old.empty ≡ some e
    → (v : World) × (delete (some old) w ≡ some v)
      × (v.semaphores.closes ≡ once_more e (once_more f (once_more m w.semaphores.closes)))
      × ((q : SemJobqueue) × (w' : World) × (new (some p) c v ≡ some (some q, w'))
          × IsSetUp p v w' q)
unfolding deleted
new_after_delete p c w old m f e init all em ef ee = (
  deleted m f e old w,
  delete-deleted old w m f e em ef ee,
  refl,
  new-IsSetUp p c (deleted m f e old w) init all (
      subst (λ u. Unknown u (deleted m f e old w).semaphores) (sym (deleted-user m f e old w))
        (deleted-Unknown m f e old w)),
)
