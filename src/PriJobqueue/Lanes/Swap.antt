-- ===== src/PriJobqueue/Lanes/Swap.antt =====
-- Two calls of enqueue in either order.
use csc.Base.{
  ℕ, ◌+◌, ◌≤◌, ◌<◌, ◌≡◌, ◌≢◌, refl, sym, ap, ◌∙◌, some, not, ◌&&◌, List, [], ◌∷◌, ◌++◌, arith,
  length, length-append, All, ◌==◌, if◌then◌else◌, ℕ_discrete, append_assoc, append-nil,
}
use mathlib.Core.Quot
use mathlib.Core.Quot.{Quot, Quot-set}
use csc.CString.{strnlen}
use csc.Job.{Job, Heap}
use csc.PriJobqueue.{PriJobqueue}
use csc.PriJobqueue.Spec.{push, accepts}
use csc.PriJobqueue.Inv.{Holds}
use csc.PriJobqueue.Drain.{of_priority, of_priority-append}
use csc.PriJobqueue.Trace.{Op, put, run, Sized}
use csc.PriJobqueue.Lanes.{SameLanes}
use csc.PriJobqueue.Lanes.Unordered.{lanes_run, lanes_run-put-put, run-lanes}

-- What `push` puts behind the jobs when there is room.
abbrev accepted : Job → List Job
accepted j = if not (j.priority == 0) && strnlen j.label 32 == 31 then j ∷ [] else []

push-room : (live : List Job) (j : Job) → length live < 128 → push live j ≡ live ++ accepted j
unfolding push accepts
push-room live j room = ground (arith, append-nil live)

length-push-le : (live : List Job) (j : Job) → length (push live j) ≤ length live + 1
unfolding push
length-push-le live j = ground (arith, length-append live (j ∷ []))

of_priority-accepted : (c : ℕ) (j : Job) → j.priority ≢ c → of_priority c (accepted j) ≡ []
unfolding of_priority
of_priority-accepted c j ne = ground (arith, ne)

-- Of two jobs of different priorities at most one has priority `c`.
accepted_comm :
    (c : ℕ) (j k : Job)
    → j.priority ≢ k.priority
    → of_priority c (accepted j) ++ of_priority c (accepted k)
      ≡ of_priority c (accepted k) ++ of_priority c (accepted j)
accepted_comm c j k ne = elim (ℕ_discrete j.priority c) [
  | yes e ↦
      rw (of_priority-accepted c k (λ f. ne (e ∙ sym f))) (append-nil (of_priority c (accepted j)))
  | no f ↦ rw (of_priority-accepted c j f) (sym (append-nil (of_priority c (accepted k))))
]

of_priority-push-push :
    (c : ℕ) (live : List Job) (j k : Job)
    → length live + 2 ≤ 128
    → of_priority c (push (push live j) k)
      ≡ of_priority c live ++ (of_priority c (accepted j) ++ of_priority c (accepted k))
of_priority-push-push c live j k room =
    ap (of_priority c) (push-room (push live j) k (omega (arith, length-push-le live j)))
    ∙ of_priority-append c (push live j) (accepted k)
    ∙ ap (λ l. of_priority c l ++ of_priority c (accepted k)) (push-room live j (omega arith))
    ∙ ap (λ l. l ++ of_priority c (accepted k)) (of_priority-append c live (accepted j))
    ∙ append_assoc (of_priority c live) (of_priority c (accepted j)) (of_priority c (accepted k))

swap-SameLanes :
    (live : List Job) (j k : Job)
    → length live + 2 ≤ 128
    → j.priority ≢ k.priority
    → SameLanes (push (push live j) k) (push (push live k) j)
swap-SameLanes live j k room ne c =
    of_priority-push-push c live j k room
    ∙ ap (λ l. of_priority c live ++ l) (accepted_comm c j k ne)
    ∙ sym (of_priority-push-push c live k j room)

-- Where the queue has room for two more jobs, a client that enqueues two jobs of different
-- priorities, with labels of 32 bytes, in one order or the other sees the same in all that it
-- does later: in its dequeues and peeks, and when it asks whether the queue is empty or full and
-- for its size and space, whatever it enqueues between them.
pub run-swap :
    (q : PriJobqueue) (live : List Job) (h : Heap) (j k : Job) (ops : List Op)
    → Holds q live
    → length live + 2 ≤ 128
    → j.priority ≢ k.priority
    → length j.label ≡ 32
    → length k.label ≡ 32
    → All Sized ops
    → run (some q) h (put j ∷ put k ∷ ops) ≡ run (some q) h (put k ∷ put j ∷ ops)
run-swap q live h j k ops holds room ne size_j size_k sized =
    run-lanes (put j ∷ put k ∷ ops) q (Quot.mk live) h (live, holds, refl) (size_j, (size_k, sized))
    ∙ lanes_run-put-put live j k ops
    ∙ ap (λ l. lanes_run l ops) (Quot.sound (swap-SameLanes live j k room ne))
    ∙ sym (lanes_run-put-put live k j ops)
    ∙ sym (
        run-lanes (put k ∷ put j ∷ ops) q (Quot.mk live) h (live, holds, refl)
          (size_k, (size_j, sized)))
