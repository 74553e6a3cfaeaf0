-- ===== src/PriJobqueue/Fill.antt =====
-- The loop that pri_jobqueue.h shows for enqueuing: until the queue is full.
pub mod New
use csc.Base.{
  ℕ, zero, suc, ◌+◌, ◌-◌, ◌≤◌, ◌<◌, ◌≡◌, ◌≢◌, refl, subst, ◌∙◌, true, false, Option, none, some,
  List, [], ◌∷◌, ◌++◌, append_assoc, append-nil, arith, length, length-append, if◌then◌else◌,
  Bool-cases, inl, inr, leb,
}
use csc.CString.{strnlen}
use csc.Base.Int.{ℤ}
use csc.Job.{Job, Heap, write, set_job}
use csc.Job.Label.{label_text, padded-IsFull, stored_label-padded}
use csc.Job.New.{described}
use csc.PriJobqueue.{PriJobqueue, job_buffer_size, is_full, enqueue}
use csc.PriJobqueue.Spec.{push, accepts}
use csc.PriJobqueue.Inv.{Holds}
use csc.PriJobqueue.Refine.{observers_agree, enqueue_refines}

-- The arguments of a call of `job_set` or `job_new`.
pub record Request : Type 0 where
  pub pid : ℤ
  pub id : ℕ
  pub priority : ℕ
  pub label : Option (List ℕ)

-- `while (!pri_jobqueue_is_full(pjq)) { j = job_set(&job, …); pri_jobqueue_enqueue(pjq, j); … }` with
-- at most `fuel` rounds, from the `k`-th request of `args` on; `job` is at address 0. The queue that
-- it leaves, and the number of jobs set.
pub fill : ℕ → (ℕ → Request) → ℕ → Option PriJobqueue → Heap → Option PriJobqueue × ℕ
fill zero args k pq h = (pq, k)
fill (suc fuel) args k pq h =
    let a = args k in
    let (j, h') = set_job (some 0) a.pid a.id a.priority a.label h in
    let rest = fill fuel args (k + 1) (enqueue pq j h') h' in if is_full pq then (pq, k) else rest

-- The documented job of a request.
abbrev pub requested : Request → Job
requested a = described a.pid a.id a.priority a.label

-- The jobs that are made from the `k`-th on.
pub made : ℕ → (ℕ → Job) → ℕ → List Job
made zero make k = []
made (suc n) make k = make k ∷ made n make (k + 1)

-- A job that is enqueued where there is room.
pub record IsFit (j : Job) : Type 0 where
  pub ranked : j.priority ≢ 0
  pub size : length j.label ≡ 32
  pub text : strnlen j.label 32 ≡ 31

-- After the loop, from the `k`-th job on, on a queue that held `live`.
pub record Filled (live : List Job) (make : ℕ → Job) (k : ℕ) (out : Option PriJobqueue × ℕ)
    : Type 0 where
  pub queue : PriJobqueue
  pub same : out.0 ≡ some queue
  pub full : is_full (some queue) ≡ true
  pub counted : out.1 ≡ k + (job_buffer_size - length live)
  pub holds : Holds queue (live ++ made (job_buffer_size - length live) make k)

pub Filled-full :
    (q : PriJobqueue) (live : List Job) (make : ℕ → Job) (k : ℕ)
    → Holds q live
    → job_buffer_size ≤ length live
    → Filled live make k (some q, k)
unfolding made
Filled-full q live make k holds le =
    let none_left : job_buffer_size - length live ≡ 0 = omega arith in
    record {
      queue = q;
      same = refl;
      full = ground (arith, observers_agree q live holds);
      counted = omega (arith, none_left);
      holds = rw none_left (rw (append-nil live) holds);
    }

-- A round that adds the `k`-th job, and the rounds after it.
pub Filled-step :
    (live : List Job) (make : ℕ → Job) (k : ℕ) (out : Option PriJobqueue × ℕ)
    → length live < job_buffer_size
    → Filled (live ++ (make k ∷ [])) make (k + 1) out
    → Filled live make k out
unfolding made
Filled-step live make k out lt v =
    let longer = length-append live (make k ∷ []) in
    let one : job_buffer_size - length live
        ≡ suc (job_buffer_size - length (live ++ (make k ∷ []))) =
      omega (arith, longer) in
    record {
      queue = v.queue;
      same = v.same;
      full = v.full;
      counted = omega (arith, v.counted, longer);
      holds = rw one (rw (append_assoc live (make k ∷ []) _) at v.holds);
    }

-- A fit job is taken where there is room.
pub push_fit :
    (live : List Job) (j : Job)
    → length live < job_buffer_size
    → IsFit j
    → push live j ≡ live ++ (j ∷ [])
unfolding push accepts
push_fit live j lt fit = ground (arith, fit.ranked, fit.text)

pub requested-IsFit : (a : Request) → a.priority ≢ 0 → IsFit (requested a)
requested-IsFit a ranked =
    let full = padded-IsFull (label_text a.label) in
    record { ranked = ranked; size = full.size; text = full.text }

set_job-requested :
    (a : Request) (h : Heap)
    → set_job (some 0) a.pid a.id a.priority a.label h ≡ (some 0, write h 0 (requested a))
unfolding set_job
set_job-requested a h = rw (stored_label-padded a.label) refl

-- With at least as many rounds as there are free slots, and jobs whose priority is not 0 and
-- whose labels are whole, the documented loop that enqueues while the queue is not full ends with
-- a full queue; it has made as many jobs as there were free slots, and the queue holds these
-- behind the jobs that it held.
pub fill-Filled :
    (fuel : ℕ) (args : ℕ → Request) (k : ℕ) (q : PriJobqueue) (live : List Job) (h : Heap)
    → Holds q live
    → ((i : ℕ) → (args i).priority ≢ 0)
    → job_buffer_size ≤ length live + fuel
    → Filled live (λ i. requested (args i)) k (fill fuel args k (some q) h)
unfolding fill
fill-Filled zero args k q live h holds ranked enough =
    Filled-full q live (λ i. requested (args i)) k holds (omega arith)
fill-Filled (suc fuel) args k q live h holds ranked enough =
    elim (Bool-cases (leb 128 (length live))) [
      | inl e ↦
          let full : is_full (some q) ≡ true = (observers_agree q live holds).1 ∙ e in
          rw full (Filled-full q live (λ i. requested (args i)) k holds (ground arith))
      | inr e ↦
          let room : is_full (some q) ≡ false = (observers_agree q live holds).1 ∙ e in
          let j = requested (args k) in
          let fit = requested-IsFit (args k) (ranked k) in
          let h' = write h 0 j in
          let (q', f, holds') = enqueue_refines q live 0 h' holds fit.size in
          let below : length live < job_buffer_size = ground arith in
          let pushed = push_fit live j below fit in
          rw (room, set_job-requested (args k) h, f)
            (Filled-step live (λ i. requested (args i)) k _ below
              (fill-Filled fuel args (k + 1) q' (live ++ (j ∷ [])) h'
                (subst (Holds q') pushed holds') ranked
                (omega (arith, length-append live (j ∷ [])))))
    ]
