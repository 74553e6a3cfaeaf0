-- ===== src/Rmsho/Recovery.antt =====
-- runrmsho.sh: the removal of all shared objects that processes may have left behind.
use csc.Base.{
  ℕ, ◌≡◌, refl, sym, ap, subst, ◌∙◌, true, Option, none, some, List, [], ◌∷◌, All, Bool-cases, inl,
  inr,
}
use csc.Ipc.Share.{same_text_refl}
use csc.CString.{codes, same_text}
use csc.Proc.{Proc}
use csc.Ipc.{shm_unlink, ipc_name}
use csc.SemJobqueue.Setup.{SemJobqueue, World, Chances, new}
use csc.SemJobqueue.Setup.Opening.{Unknown, AllChances}
use csc.SemJobqueue.Setup.Laws.{IsSetUp, new-IsSetUp}
use csc.SemJobqueue.Setup.Delete.{without, unlink-free, unlink-still}
use csc.Rmsho.{main}
use csc.Rmsho.Laws.{main-fulfils}

-- `./rmsho $i` for each label
pub run_rmshm : List (List ℕ) → World → World
run_rmshm [] w = w
run_rmshm (label ∷ more) w = run_rmshm more (main (codes "./rmsho" ∷ label ∷ []) w).1

-- `./rmsho -s $i` for each label
pub run_rmsem : List (List ℕ) → World → World
run_rmsem [] w = w
run_rmsem (label ∷ more) w = run_rmsem more (main (codes "./rmsho" ∷ codes "-s" ∷ label ∷ []) w).1

abbrev pub shm_labels : List (List ℕ)
shm_labels =
    codes "none"
    ∷ codes "ipc_jobq"
    ∷ codes "mux_lockvar"
    ∷ codes "mux_peters"
    ∷ codes "test_ipc"
    ∷ []

abbrev pub sem_labels : List (List ℕ)
sem_labels = codes "sjq.mutex" ∷ codes "sjq.full" ∷ codes "sjq.empty" ∷ []

-- The script with no argument, or with one that is neither "-s" nor "-m".
pub runrmsho : World → World
runrmsho w = run_rmsem sem_labels (run_rmshm shm_labels w)

abbrev without_shm : List ℕ → World → World
without_shm label w = record w {
  system = shm_unlink (ipc_name w.system.user (some label)) w.system;
}

abbrev without_sem : List ℕ → World → World
without_sem label w = record w { semaphores = without w.system.user label w.semaphores }

run_shm :
    (label : List ℕ) (w : World) → (main (codes "./rmsho" ∷ label ∷ []) w).1 ≡ without_shm label w
run_shm label w = ap (λ (r : ℕ × World). r.1) (main-fulfils (codes "./rmsho") (label ∷ []) w)

run_sem :
    (label : List ℕ) (w : World)
    → (main (codes "./rmsho" ∷ codes "-s" ∷ label ∷ []) w).1 ≡ without_sem label w
unfolding same_text
run_sem label w =
    ap (λ (r : ℕ × World). r.1) (main-fulfils (codes "./rmsho") (codes "-s" ∷ label ∷ []) w)

-- `w'` has no semaphore and no object that `w` does not have, and the same user.
record Shrinks (w w' : World) : Type 0 where
  user : w'.system.user ≡ w.system.user
  named : (n : List ℕ) → w.system.named n ≡ none → w'.system.named n ≡ none
  known : (n : List ℕ) → w.semaphores.known n ≡ none → w'.semaphores.known n ≡ none

Shrinks-trans : (u v w : World) → Shrinks u v → Shrinks v w → Shrinks u w
Shrinks-trans u v w h k = record {
  user = k.user ∙ h.user;
  named = λ n e. k.named n (h.named n e);
  known = λ n e. k.known n (h.known n e);
}

without_shm-Shrinks : (label : List ℕ) (w : World) → Shrinks w (without_shm label w)
unfolding shm_unlink
without_shm-Shrinks label w = record {
  user = refl;
  named = λ n e. elim (Bool-cases (same_text (ipc_name w.system.user (some label)) n)) [
    | inl f ↦ rw f refl
    | inr f ↦ rw f e
  ];
  known = λ n e. e;
}

without_sem-Shrinks : (label : List ℕ) (w : World) → Shrinks w (without_sem label w)
without_sem-Shrinks label w = record {
  user = refl;
  named = λ n e. e;
  known = λ n e. unlink-still w.system.user label w.semaphores n e;
}

run_rmshm-Shrinks : (labels : List (List ℕ)) (w : World) → Shrinks w (run_rmshm labels w)
unfolding run_rmshm
run_rmshm-Shrinks [] w = record { user = refl; named = λ n e. e; known = λ n e. e }
run_rmshm-Shrinks (l ∷ more) w =
    subst (λ v. Shrinks w (run_rmshm more v)) (sym (run_shm l w))
      (Shrinks-trans w (without_shm l w) _ (without_shm-Shrinks l w)
        (run_rmshm-Shrinks more (without_shm l w)))

run_rmsem-Shrinks : (labels : List (List ℕ)) (w : World) → Shrinks w (run_rmsem labels w)
unfolding run_rmsem
run_rmsem-Shrinks [] w = record { user = refl; named = λ n e. e; known = λ n e. e }
run_rmsem-Shrinks (l ∷ more) w =
    subst (λ v. Shrinks w (run_rmsem more v)) (sym (run_sem l w))
      (Shrinks-trans w (without_sem l w) _ (without_sem-Shrinks l w)
        (run_rmsem-Shrinks more (without_sem l w)))

-- No object, or no semaphore, has the name that the user's label gives.
abbrev pub NoObject : Option (List ℕ) → World → List ℕ → Type 0
NoObject user w label = w.system.named (ipc_name user (some label)) ≡ none

abbrev pub NoSemaphore : Option (List ℕ) → World → List ℕ → Type 0
NoSemaphore user w label = w.semaphores.known (ipc_name user (some label)) ≡ none

run_rmshm-free :
    (labels : List (List ℕ)) (w : World) → All (NoObject w.system.user (run_rmshm labels w)) labels
unfolding run_rmshm shm_unlink
run_rmshm-free [] w = tt
run_rmshm-free (l ∷ more) w =
    subst (λ v. All (NoObject w.system.user (run_rmshm more v)) (l ∷ more)) (sym (run_shm l w))
      (
        (run_rmshm-Shrinks more (without_shm l w)).named _
            (rw (same_text_refl (ipc_name w.system.user (some l))) refl),
        run_rmshm-free more (without_shm l w),
      )

run_rmsem-free :
    (labels : List (List ℕ)) (w : World)
    → All (NoSemaphore w.system.user (run_rmsem labels w)) labels
unfolding run_rmsem
run_rmsem-free [] w = tt
run_rmsem-free (l ∷ more) w =
    subst (λ v. All (NoSemaphore w.system.user (run_rmsem more v)) (l ∷ more)) (sym (run_sem l w))
      (
        (run_rmsem-Shrinks more (without_sem l w)).known _
            (unlink-free w.system.user l w.semaphores),
        run_rmsem-free more (without_sem l w),
      )

still_free :
    (user : Option (List ℕ)) (u v : World)
    → Shrinks u v
    → (labels : List (List ℕ)) → All (NoObject user u) labels
    → All (NoObject user v) labels
still_free user u v h [] free = tt
still_free user u v h (l ∷ more) (here, free) = (h.named _ here, still_free user u v h more free)

-- Whatever objects and semaphores there are: after runrmsho.sh, run for everything, no shared
-- object has the name of one of its five labels and no semaphore that of one of its three, and
-- `sem_jobqueue_new` of the init process, where no call fails or is interrupted, then sets up a
-- new queue with fresh semaphores.
pub new_after_runrmsho :
    (p : Proc) (c : Chances) (w : World)
    → p.is_init ≡ true
    → AllChances c
    → All (NoObject w.system.user (runrmsho w)) shm_labels
      × All (NoSemaphore w.system.user (runrmsho w)) sem_labels
      × ((q : SemJobqueue) × (w' : World) × (new (some p) c (runrmsho w) ≡ some (some q, w'))
          × IsSetUp p (runrmsho w) w' q)
unfolding runrmsho
new_after_runrmsho p c w init all =
    let u = run_rmshm shm_labels w in
    let v = run_rmsem sem_labels u in
    let first = run_rmshm-Shrinks shm_labels w in
    let second = run_rmsem-Shrinks sem_labels u in
    let cleared = run_rmsem-free sem_labels u in
    (
      still_free w.system.user u v second shm_labels (run_rmshm-free shm_labels w),
      subst (λ user. All (NoSemaphore user v) sem_labels) first.user cleared,
      new-IsSetUp p c v init all (
          subst (λ user. Unknown user v.semaphores) (sym second.user)
            (cleared.0, cleared.1.0, cleared.1.1.0)),
    )
