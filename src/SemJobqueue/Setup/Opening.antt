-- ===== src/SemJobqueue/Setup/Opening.antt =====
-- How sem_jobqueue_new opens the three semaphores where nothing fails.
use csc.Base.{ℕ, suc, ◌≡◌, refl, ap, ◌∙◌, Bool, true, false, Option, none, some, List, [], arith}
use csc.CString.{same_text}
use csc.Job.{update}
use csc.PriJobqueue.{PriJobqueue}
use csc.PriJobqueue.Inv.{Holds}
use csc.Ipc.{Ipc, System, rename, ipc_name}
use csc.Ipc.Share.{AllGranted, same_text_refl}
use csc.IpcJobqueue
use csc.IpcJobqueue.Laws.{space_agrees}
use csc.SemJobqueue.{acquire, Wait}
use csc.SemJobqueue.Setup.Labels.{
  mutex_full, mutex_empty, full_empty, full_mutex, empty_mutex, empty_full,
}
use csc.SemJobqueue.Setup.{
  sem_flag, mutex_sem_success, sem_mutex_label, sem_full_label, sem_empty_label, SemJobqueue,
  Semaphores, World, Chances, sem_open, sem_new, sem_wait, take_one, sem_post, open_others,
  check_all, after_wait, check_mutex, open_mutex,
}

-- The semaphores with a new one.
abbrev pub added : List ℕ → ℕ → Semaphores → Semaphores
added name v s = record {
  known = rename s.known name (some s.fresh);
  value = update s.value s.fresh v;
  closes = s.closes;
  fresh = suc s.fresh;
}

pub sem_new-added :
    (user : Option (List ℕ)) (l : List ℕ) (v f : ℕ) (granted : Bool) (s : Semaphores)
    → granted ≡ true
    → s.known (ipc_name user (some l)) ≡ none
    → sem_new user l v f granted s ≡ (some s.fresh, f, added (ipc_name user (some l)) v s)
unfolding sem_new sem_flag sem_open
sem_new-added user l v f granted s g h = rw g (rw h refl)

added-others :
    (name n : List ℕ) (v : ℕ) (s : Semaphores)
    → same_text name n ≡ false
    → s.known n ≡ none
    → (added name v s).known n ≡ none
added-others name n v s ne h = rw ne h

-- The names of the three semaphores are free.
abbrev pub Unknown : Option (List ℕ) → Semaphores → Type 0
Unknown user s =
    (s.known (ipc_name user (some sem_mutex_label)) ≡ none)
    × (s.known (ipc_name user (some sem_full_label)) ≡ none)
    × (s.known (ipc_name user (some sem_empty_label)) ≡ none)

-- The semaphore of `label` is `k`, of value `v`.
abbrev pub IsOpen : Option (List ℕ) → List ℕ → ℕ → Option ℕ → Semaphores → Type 0
IsOpen user label v field s =
    (k : ℕ) × (field ≡ some k) × (s.known (ipc_name user (some label)) ≡ some k) × (s.value k ≡ v)

-- Every call succeeds, and the wait is not interrupted.
abbrev pub AllChances : Chances → Type 0
AllChances c =
    (c.malloc ≡ true)
    × (c.mutex ≡ true)
    × (c.full ≡ true)
    × (c.empty ≡ true)
    × (c.wait ≡ acquire)
    × AllGranted c.ipc

pub space_of_empty :
    (i : Ipc) (t : System PriJobqueue)
    → Holds (t.content i.addr) []
    → ((IpcJobqueue.space (some i) t).0 ≡ 128)
      × ((IpcJobqueue.space (some i) t).1.content ≡ t.content)
space_of_empty i t holds = let (n, same) = space_agrees i [] t holds in (omega (arith, n), same)

pub sem_wait-added :
    (w : Wait) (name : List ℕ) (s : Semaphores)
    → w ≡ acquire
    → sem_wait w (some s.fresh) (added name 1 s)
      ≡ some (record (added name 1 s) { value = update (added name 1 s).value s.fresh 0 })
unfolding sem_wait take_one
sem_wait-added w name s e =
    let one : (added name 1 s).value s.fresh ≡ 1 = ground arith in
    ap (λ v. sem_wait v (some s.fresh) (added name 1 s)) e
    ∙ ap (λ v. take_one s.fresh v (added name 1 s)) one

module _ (i : Ipc) (t : System PriJobqueue) (s : Semaphores) where
  sem_name : List ℕ → List ℕ
  sem_name l = ipc_name t.user (some l)

  -- After `sem_new` of `mutex`, and its `sem_wait`.
  pub locked_state : Semaphores
  locked_state =
      let u = added (sem_name sem_mutex_label) 1 s in record u { value = update u.value s.fresh 0 }

  -- After the other two.
  pub full_state : Semaphores
  full_state = added (sem_name sem_empty_label) 128 (added (sem_name sem_full_label) 0 locked_state)

  unfoldable pub made : SemJobqueue
  made = record {
    mutex = some s.fresh;
    full = some (suc s.fresh);
    empty = some (suc (suc s.fresh));
    ijq = i;
  }

  unfoldable pub after : World
  after = record {
    system = (IpcJobqueue.space (some i) t).1;
    semaphores = sem_post (some s.fresh) full_state;
  }

  open_others-made :
      (c : Chances)
      → AllChances c
      → Unknown t.user s
      → Holds (t.content i.addr) []
      → open_others c i
          (some s.fresh)
          mutex_sem_success
          (record { system = t; semaphores = locked_state })
        ≡ some (some made, after)
  unfolding open_others check_all sem_name locked_state full_state made after
  open_others-made c (_, _, gf, ge, _, _) (um, uf, ue) holds =
      let f =
        added-others (sem_name sem_mutex_label) (sem_name sem_full_label) 1 s (mutex_full t.user)
          uf in
      let e =
        added-others (sem_name sem_full_label) (sem_name sem_empty_label) 0 locked_state
          (full_empty t.user)
          (added-others (sem_name sem_mutex_label) (sem_name sem_empty_label) 1 s
            (mutex_empty t.user) ue) in
      rw (sem_new-added t.user sem_full_label 0 2 c.full locked_state gf f) (
        rw ((space_of_empty i t holds).0) (
          rw
            (sem_new-added t.user sem_empty_label 128 4 c.empty
              (added (sem_name sem_full_label) 0 locked_state) ge e)
            refl))

  pub open_mutex-made :
      (c : Chances)
      → AllChances c
      → Unknown t.user s
      → Holds (t.content i.addr) []
      → open_mutex c (some i, t) s ≡ some (some made, after)
  unfolding open_mutex check_mutex after_wait locked_state sem_name
  open_mutex-made c all unknown holds =
      ap (check_mutex c i t) (sem_new-added t.user sem_mutex_label 1 1 c.mutex s all.1 unknown.0)
      ∙ ap (after_wait c i (some s.fresh) 1 t)
          (sem_wait-added c.wait (sem_name sem_mutex_label) s all.4)
      ∙ open_others-made c all unknown holds

  pub made-IsOpen :
      IsOpen t.user sem_mutex_label 1 made.mutex after.semaphores
      × IsOpen t.user sem_full_label 0 made.full after.semaphores
      × IsOpen t.user sem_empty_label 128 made.empty after.semaphores
  unfolding made after sem_post full_state locked_state sem_name
  made-IsOpen = (
    (
      s.fresh,
      refl,
      rw (empty_mutex t.user)
          (rw (full_mutex t.user) (rw (same_text_refl (sem_name sem_mutex_label)) refl)),
      ground arith,
    ),
    (
      suc s.fresh,
      refl,
      rw (empty_full t.user) (rw (same_text_refl (sem_name sem_full_label)) refl),
      ground arith,
    ),
    (suc (suc s.fresh), refl, rw (same_text_refl (sem_name sem_empty_label)) refl, ground arith),
  )
