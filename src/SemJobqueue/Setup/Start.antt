-- ===== src/SemJobqueue/Setup/Start.antt =====
-- From the set-up of a queue to the processes that share it.
use csc.Base.{
  ℕ, zero, suc, ◌≡◌, ◌∙◌, ap, refl, true, Option, some, List, [], ◌∷◌, All, length, map, get_or,
  subst, sym,
}
use csc.Job.{Heap}
use csc.CString.{codes}
use csc.Ipc.{Ipc, ipc_name}
use csc.PriJobqueue.Inv.{Holds}
use csc.SemJobqueue.Setup.Opening.{Unknown, AllChances}
use csc.SemJobqueue.Setup.Joining.{Offers, using}
use csc.SemJobqueue.Setup.JoinAll.{join_all, join_all-first, join_all-joined, CanJoin}
use csc.Proc.{Proc}
use csc.SemJobqueue.{Shared, Answer, rest}
use csc.SemJobqueue.Processes.{Process, IsSizedHeap}
use csc.SemJobqueue.Safety.{Fresh}
use csc.SemJobqueue.Setup.{
  SemJobqueue, World, Chances, sem_mutex_label, sem_full_label, sem_empty_label,
}
use csc.SemJobqueue.Setup.Laws.{new-IsSetUp}

-- The shared state of the processes that use the semaphores `m`, `f` and `e`.
abbrev pub shared_of : World → ℕ → ℕ → ℕ → Shared
shared_of w m f e = record {
  mutex = w.semaphores.value m;
  full = w.semaphores.value f;
  empty = w.semaphores.value e;
  system = w.system;
}

-- A process that is in no call and has `h` for its memory.
abbrev pub process_of : SemJobqueue → Heap → Process
process_of q h = record { ijq = q.ijq; heap = h; pc = rest Answer.nothing }

-- The queue has the object `o` and the semaphores `m`, `f` and `e`.
abbrev pub Uses : ℕ → ℕ → ℕ → ℕ → SemJobqueue → Type 0
Uses o m f e q = (q.ijq.addr ≡ o) × (q.mutex ≡ some m) × (q.full ≡ some f) × (q.empty ≡ some e)

using-Uses :
    (user : Option (List ℕ)) (o m f e : ℕ) (ps : List (Proc × Chances))
    → All (Uses o m f e) (map (λ pc. using pc.0 user o m f e) ps)
using-Uses user o m f e [] = tt
using-Uses user o m f e (p ∷ ps) = ((refl, refl, refl, refl), using-Uses user o m f e ps)

addr-get_or :
    (o m f e : ℕ) (q : SemJobqueue) (qs : List SemJobqueue)
    → Uses o m f e q
    → All (Uses o m f e) qs
    → (j : ℕ) → (get_or qs j q).ijq.addr ≡ o
addr-get_or o m f e q [] u all j = u.0
addr-get_or o m f e q (r ∷ qs) u all zero = all.0.0
addr-get_or o m f e q (r ∷ qs) u all (suc j) = addr-get_or o m f e q qs u all.1 j

length-map {ℓ κ} :
    {A : Type ℓ} {B : Type κ} (f : A → B) (xs : List A) → length (map f xs) ≡ length xs
length-map f [] = refl
length-map f (x ∷ xs) = ap suc (length-map f xs)

offered :
    (w : World) (user : Option (List ℕ)) (o m f e : ℕ)
    → w.system.user ≡ user
    → w.system.named (ipc_name user (some (codes "ipc_jobq"))) ≡ some o
    → w.semaphores.known (ipc_name user (some sem_mutex_label)) ≡ some m
    → w.semaphores.known (ipc_name user (some sem_full_label)) ≡ some f
    → w.semaphores.known (ipc_name user (some sem_empty_label)) ≡ some e
    → Offers o m f e w
offered w user o m f e same ijq mutex full empty = record {
  ijq = ap (λ u. w.system.named (ipc_name u (some (codes "ipc_jobq")))) same ∙ ijq;
  mutex = ap (λ u. w.semaphores.known (ipc_name u (some sem_mutex_label))) same ∙ mutex;
  full = ap (λ u. w.semaphores.known (ipc_name u (some sem_full_label))) same ∙ full;
  empty = ap (λ u. w.semaphores.known (ipc_name u (some sem_empty_label))) same ∙ empty;
}

-- The init process and then any number of other processes call `sem_jobqueue_new`, one after the
-- other, where no semaphore has one of the three names and no call fails or is interrupted. Then
-- each gets a queue, all with one object and the same three semaphores, and the processes with
-- these queues, and memories of their own, are in the state that the results of Safety, Supply,
-- History and Progress start from.
pub join_all-Fresh :
    (p : Proc) (c : Chances) (ps : List (Proc × Chances)) (w : World) (heaps : ℕ → Heap)
    → p.is_init ≡ true
    → AllChances c
    → All CanJoin ps
    → Unknown w.system.user w.semaphores
    → ((j : ℕ) → IsSizedHeap (heaps j))
    → (q : SemJobqueue) × (qs : List SemJobqueue) × (w' : World) × (m : ℕ) × (f : ℕ) × (e : ℕ)
      × (join_all ((p, c) ∷ ps) w ≡ some (q ∷ qs, w'))
      × (length qs ≡ length ps)
      × All (Uses w.system.next m f e) (q ∷ qs)
      × Fresh w.system.next (record {
        shared = shared_of w' m f e;
        procs = λ j. process_of (get_or (q ∷ qs) j q) (heaps j);
      })
join_all-Fresh p c ps w heaps init all can unknown sized =
    let (q, u, made, v) = new-IsSetUp p c w init all unknown in
    let (m, field_m, known_m, value_m) = v.mutex in
    let (f, field_f, known_f, value_f) = v.full in
    let (e, field_e, known_e, value_e) = v.empty in
    let offers : Offers w.system.next m f e u =
      offered u w.system.user w.system.next m f e v.same_user v.named known_m known_f known_e in
    let (w', joined, same) = join_all-joined ps u w.system.next m f e 0 can offers value_m in
    let qs = map (λ (pc : Proc × Chances). using pc.0 u.system.user w.system.next m f e) ps in
    let mine : Uses w.system.next m f e q =
      (ap (λ (i : Ipc). i.addr) v.ijq, field_m, field_f, field_e) in
    let others : All (Uses w.system.next m f e) qs =
      using-Uses u.system.user w.system.next m f e ps in
    (
      q,
      qs,
      w',
      m,
      f,
      e,
      join_all-first p c ps w u w' q qs made joined,
      length-map (λ (pc : Proc × Chances). using pc.0 u.system.user w.system.next m f e) ps,
      (mine, others),
      record {
        holds = subst (λ k. Holds (k w.system.next) []) (sym same.content) v.holds;
        mutex = same.value m ∙ value_m;
        full = same.value f ∙ value_f;
        empty = same.value e ∙ value_e;
        idle = λ j. refl;
        mapped = addr-get_or w.system.next m f e q (q ∷ qs) mine (mine, others);
        sized = sized;
      },
    )
