-- ===== src/SemJobqueue/Setup/Ended.antt =====
-- What sem_jobqueue_new returns once it has mutex, whichever of the other semaphores it opens.
use csc.Base.{
  ℕ, suc, ◌≡◌, ◌≤◌, ◌<◌, refl, ◌∙◌, Bool, true, false, Option, none, some, List, arith,
  if◌then◌else◌, ◌==◌,
}
use Prim.Native.Nat.{bit_and, bit_or}
use csc.PriJobqueue.{PriJobqueue}
use csc.Ipc.{Ipc, System}
use csc.IpcJobqueue
use csc.IpcJobqueue.Laws.{space_keeps}
use csc.SemJobqueue.Setup.{
  SemJobqueue, Semaphores, World, Chances, sem_full_label, sem_empty_label, sem_post, sem_flag,
  sem_new, sem_open, check_all, open_others,
}

abbrev pub is_some {ℓ} : {A : Type ℓ} → Option A → Bool
is_some none = false
is_some (some a) = true

-- The semaphores below `fresh` have the values that they had.
record Opened (flag : ℕ) (granted : Bool) (s : Semaphores) (out : Option ℕ × ℕ × Semaphores)
    : Type 0 where
  given : is_some out.0 ≡ granted
  flagged : out.1 ≡ (if granted then flag else 0)
  keeps : (k : ℕ) → k < s.fresh → out.2.value k ≡ s.value k
  grows : s.fresh ≤ out.2.fresh

sem_new-Opened :
    (user : Option (List ℕ)) (l : List ℕ) (v flag : ℕ) (granted : Bool) (s : Semaphores)
    → Opened flag granted s (sem_new user l v flag granted s)
unfolding sem_new sem_open sem_flag
sem_new-Opened user l v flag false s = record {
  given = refl;
  flagged = refl;
  keeps = λ k lt. refl;
  grows = omega arith;
}
sem_new-Opened user l v flag true s = record {
  given = ground arith;
  flagged = ground arith;
  keeps = λ k lt. ground arith;
  grows = ground arith;
}

-- What a queue without errors before has at the end: `mutex` at one more than before its post,
-- and the other two semaphores if they were opened.
pub record Ended (m x : ℕ) (c : Chances) (i : Ipc) (t : System PriJobqueue)
    (out : Option (Option SemJobqueue × World)) : Type 0 where
  pub queue : SemJobqueue
  pub world : World
  pub given : out ≡ some (some queue, world)
  pub ijq : queue.ijq ≡ i
  pub mutex : queue.mutex ≡ some m
  pub value : world.semaphores.value m ≡ suc x
  pub full : is_some queue.full ≡ c.full
  pub empty : is_some queue.empty ≡ c.empty
  pub content : world.system.content ≡ t.content

-- The test of the flags holds whichever of `full` and `empty` were opened.
check_all-Ended :
    (c : Chances) (i : Ipc) (m : ℕ) (s : Semaphores) (t t' : System PriJobqueue)
    (f e : Option ℕ × ℕ × Semaphores)
    → Opened 2 c.full s f
    → Opened 4 c.empty f.2 e
    → m < s.fresh
    → t'.content ≡ t.content
    → Ended m (s.value m) c i t (check_all i (some m) 1 f t' e)
unfolding check_all sem_post
check_all-Ended c i m s t t' (full, r, u) (empty, r', u') f e lt same =
    let kept : u'.value m ≡ s.value m = e.keeps m (omega (arith, f.grows)) ∙ f.keeps m lt in
    let test : (bit_and (bit_or 1 (bit_or r r')) 7 == 0) ≡ false =
      rw (f.flagged, e.flagged) (flags c.full c.empty) in
    rw test (record {
      queue = record { mutex = some m; full = full; empty = empty; ijq = i };
      world = record { system = t'; semaphores = sem_post (some m) u' };
      given = refl;
      ijq = refl;
      mutex = refl;
      value = ground (arith, kept);
      full = f.given;
      empty = e.given;
      content = same;
    })
  where
    flags :
        (a b : Bool)
        → (bit_and (bit_or 1 (bit_or (if a then 2 else 0) (if b then 4 else 0))) 7 == 0) ≡ false
    flags true true = refl
    flags true false = refl
    flags false true = refl
    flags false false = refl

pub open_others-Ended :
    (c : Chances) (i : Ipc) (m : ℕ) (s : Semaphores) (t : System PriJobqueue)
    → m < s.fresh
    → Ended m (s.value m) c i t (open_others c i (some m) 1 (record { system = t; semaphores = s }))
unfolding open_others
open_others-Ended c i m s t lt =
    let f = sem_new t.user sem_full_label 0 2 c.full s in
    let n = (IpcJobqueue.space (some i) t).0 in
    check_all-Ended c i m s t (IpcJobqueue.space (some i) t).1 f
      (sem_new t.user sem_empty_label n 4 c.empty f.2)
      (sem_new-Opened t.user sem_full_label 0 2 c.full s)
      (sem_new-Opened t.user sem_empty_label n 4 c.empty f.2) lt (space_keeps i t).1
