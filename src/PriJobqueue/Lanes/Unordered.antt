-- ===== src/PriJobqueue/Lanes/Unordered.antt =====
-- The queue of pri_jobqueue.h without the order in which jobs are stored: for each priority, the
-- jobs of that priority in order of arrival. Where jobs of different priorities stand relative to
-- each other is forgotten.
use csc.Base.{
  ◌≡◌, refl, sym, ap, ap₂, ◌∙◌, not, ◌&&◌, Option, none, some, List, [], ◌∷◌, ◌++◌, arith, length,
  All, Bool-cases, inl, inr, ltb, ◌==◌,
}
use mathlib.Core.Quot
use mathlib.Core.Quot.{Quot, Quot-set}
use csc.CString.{strnlen}
use csc.Job.{Job, Heap}
use csc.PriJobqueue.{PriJobqueue}
use csc.PriJobqueue.Spec.{pop, push, accepts}
use csc.PriJobqueue.Inv.{Holds}
use csc.PriJobqueue.Looks.{empty_of-length}
use csc.PriJobqueue.Drain.{of_priority, of_priority-append}
use csc.PriJobqueue.Trace.{
  Op, put, get, top, measure, Seen, handed, measured_list, run, spec_run, answer, left, Sized,
  run_refines,
}
use csc.PriJobqueue.Lanes.{SameLanes, SameNext, pop-SameNext, length-SameLanes}

abbrev pub Lanes : Type 0
Lanes = Quot SameLanes

-- What is taken out, and the queue that is left.
abbrev Next : Type 0
Next = Option (Job × Lanes)

Job_set : IsSet Job
Job_set = hlevel

Next_set : IsSet Next
Next_set = hlevel (Job_set, Quot-set)

abbrev unordered : Option (Job × List Job) → Next
unordered none = none
unordered (some (m, rest)) = some (m, Quot.mk rest)

unordered-SameNext : (a b : Option (Job × List Job)) → SameNext a b → unordered a ≡ unordered b
unordered-SameNext none none same = refl
unordered-SameNext none (some b) same = absurd same
unordered-SameNext (some a) none same = absurd same
unordered-SameNext (some (m, r)) (some (n, s)) (e, same) =
    ap₂ (λ (j : Job) (l : Lanes). some (j, l)) e (Quot.sound same)

-- The next job, and the jobs left.
pub take_next : Lanes → Next
take_next =
    Quot.lift Next_set (λ xs. unordered (pop xs))
      (λ xs ys same. unordered-SameNext (pop xs) (pop ys) (pop-SameNext xs ys same))

SameLanes-append : (xs ys zs : List Job) → SameLanes xs ys → SameLanes (xs ++ zs) (ys ++ zs)
SameLanes-append xs ys zs same c =
    of_priority-append c xs zs
    ∙ ap (λ l. l ++ of_priority c zs) (same c)
    ∙ sym (of_priority-append c ys zs)

push-SameLanes : (j : Job) (xs ys : List Job) → SameLanes xs ys → SameLanes (push xs j) (push ys j)
unfolding push accepts
push-SameLanes j xs ys same =
    let size = length-SameLanes (length xs) xs ys (omega arith) same in
    rw size
      (elim (Bool-cases
        (ltb (length ys) 128 && (not (j.priority == 0) && strnlen j.label 32 == 31))) [
          | inl e ↦ rw e (SameLanes-append xs ys (j ∷ []) same)
          | inr e ↦ rw e same
        ])

-- A job is the last of its priority, if it is valid and there is room.
pub add : Job → Lanes → Lanes
add j =
    Quot.lift Quot-set (λ xs. Quot.mk (push xs j))
      (λ xs ys same. Quot.sound (push-SameLanes j xs ys same))

-- What is seen of the next job, and the jobs that are left.
abbrev pub next_job : Next → Option Job
next_job none = none
next_job (some (m, rest)) = some m

abbrev pub jobs_left : Lanes → Next → Lanes
jobs_left l none = l
jobs_left l (some (m, rest)) = rest

measured_list-SameLanes : (xs ys : List Job) → SameLanes xs ys → measured_list xs ≡ measured_list ys
unfolding measured_list
measured_list-SameLanes xs ys same =
    let size = length-SameLanes (length xs) xs ys (omega arith) same in
    rw (empty_of-length xs, empty_of-length ys, size) refl

Seen_set : IsSet Seen
Seen_set = hlevel

-- Whether there are jobs, whether there is room, and how much of both.
pub measured_lanes : Lanes → Seen
measured_lanes = Quot.lift Seen_set measured_list measured_list-SameLanes

-- A client's calls, as `run`, on jobs without the order in which they are stored.
pub lanes_run : Lanes → List Op → List Seen
lanes_run l [] = []
lanes_run l (put j ∷ ops) = lanes_run (add j l) ops
lanes_run l (get ∷ ops) =
    handed (next_job (take_next l)) ∷ lanes_run (jobs_left l (take_next l)) ops
lanes_run l (top ∷ ops) = handed (next_job (take_next l)) ∷ lanes_run l ops
lanes_run l (measure ∷ ops) = measured_lanes l ∷ lanes_run l ops

next_job-unordered : (found : Option (Job × List Job)) → answer found ≡ next_job (unordered found)
unfolding answer
next_job-unordered none = refl
next_job-unordered (some (m, rest)) = refl

jobs_left-unordered :
    (live : List Job) (found : Option (Job × List Job))
    → ◌≡◌ {A = Lanes} (Quot.mk (left live found)) (jobs_left (Quot.mk live) (unordered found))
unfolding left
jobs_left-unordered live none = refl
jobs_left-unordered live (some (m, rest)) = refl

spec_run-lanes :
    (ops : List Op) (live : List Job) → spec_run live ops ≡ lanes_run (Quot.mk live) ops
unfolding spec_run lanes_run add take_next measured_lanes
spec_run-lanes [] live = refl
spec_run-lanes (put j ∷ ops) live = spec_run-lanes ops (push live j)
spec_run-lanes (top ∷ ops) live =
    ap₂ ◌∷◌ (ap handed (next_job-unordered (pop live))) (spec_run-lanes ops live)
spec_run-lanes (measure ∷ ops) live = ap₂ ◌∷◌ refl (spec_run-lanes ops live)
spec_run-lanes (get ∷ ops) live = ap₂ ◌∷◌ (ap handed (next_job-unordered (pop live))) (
    spec_run-lanes ops (left live (pop live))
    ∙ ap (λ l. lanes_run l ops) (jobs_left-unordered live (pop live)))

pub lanes_run-put-put :
    (live : List Job) (j k : Job) (ops : List Op)
    → lanes_run (Quot.mk live) (put j ∷ put k ∷ ops)
      ≡ lanes_run (Quot.mk (push (push live j) k)) ops
unfolding lanes_run add
lanes_run-put-put live j k ops = refl

-- The queue holds the jobs of `l`, in whatever order those of different priorities are stored.
abbrev pub Stores : PriJobqueue → Lanes → Type 0
Stores q l = (live : List Job) × Holds q live × (Quot.mk live ≡ l)

-- A queue that stores the jobs of `l`, in whatever order jobs of different priorities stand in
-- its array, shows in every sequence of enqueues of jobs with labels of 32 bytes, of dequeues, of
-- peeks and of measurements (is_empty, is_full, size and space) what the abstract queue of `l`
-- shows, which knows for each priority the order of arrival and nothing else.
pub run-lanes :
    (ops : List Op) (q : PriJobqueue) (l : Lanes) (h : Heap)
    → Stores q l
    → All Sized ops
    → run (some q) h ops ≡ lanes_run l ops
run-lanes ops q l h (live, holds, e) sized =
    run_refines ops q live h holds sized ∙ spec_run-lanes ops live ∙ ap (λ k. lanes_run k ops) e
