-- ===== src/PriJobqueue/Inv.antt =====
-- The representation of the abstract queue by the array, and what hands a job to a caller.
use csc.Base.{
  ℕ, zero, suc, ◌+◌, ◌-◌, ◌^◌, ◌≤◌, ◌≡◌, ◌≢◌, refl, sym, ap, subst, ◌∙◌, false, none, some, List,
  [], ◌∷◌, ◌++◌, append_assoc, arith, length, length-append, length-replicate, replicate,
  set-append, All, All-append, All-left, All-right, inl, inr, Bool-cases, ◌==◌,
}
use csc.Job.{Job, Ptr, Heap, malloc, set_job, new, unused}
use csc.Job.Deliver.{Delivers}
use csc.Job.Copy.{HasLabel, copied_self, has_full_label_of_full, stored_self}
use csc.PriJobqueue.{
  PriJobqueue, job_buffer_size, init_loop, is_empty, remove, find_highest_priority_job, deliver,
}
use csc.PriJobqueue.Spec.{Picks}
use csc.PriJobqueue.Find.{Yields, find_loop-finds}
use csc.PriJobqueue.Gap.{shift_loop-append}

-- A job that may stand in a queue.
pub record IsQueued (j : Job) : Type 0 where
  pub ranked : j.priority ≢ 0
  pub labelled : HasLabel j

-- `q` holds the jobs `live`, in order of arrival, in its first slots; the other slots are unused.
pub record Holds (q : PriJobqueue) (live : List Job) : Type 0 where
  pub whole : q.buf_size ≡ job_buffer_size
  pub count : q.size ≡ length live
  pub fits : length live ≤ job_buffer_size
  pub slots : q.jobs ≡ live ++ replicate (job_buffer_size - length live) unused
  pub queued : All IsQueued live

pub init_loop-append :
    (xs pre : List Job)
    → init_loop (length xs) (length pre) (pre ++ xs) ≡ pre ++ replicate (length xs) unused
unfolding init_loop
init_loop-append [] pre = refl
init_loop-append (x ∷ xs) pre =
    let moved : pre ++ (unused ∷ xs) ≡ (pre ++ (unused ∷ [])) ++ xs =
      sym (append_assoc pre (unused ∷ []) xs) in
    let size : length pre + 1 ≡ length (pre ++ (unused ∷ [])) =
      omega (arith, length-append pre (unused ∷ [])) in
    rw (set-append pre xs x unused, init_loop)
      (rw size (
        rw moved (
          init_loop-append xs (pre ++ (unused ∷ []))
          ∙ append_assoc pre (unused ∷ []) (replicate (length xs) unused))))

pub All-labelled : (xs : List Job) → All IsQueued xs → All HasLabel xs
All-labelled [] h = tt
All-labelled (x ∷ xs) h = (h.0.labelled, All-labelled xs h.1)

All-Yields : (n : ℕ) (xs : List Job) → All (λ j. n ≤ j.priority) xs → All (Yields n) xs
All-Yields n [] h = tt
All-Yields n (x ∷ xs) h = (inr h.0, All-Yields n xs h.1)

Yields-unused : (n k : ℕ) → All (Yields n) (replicate k unused)
Yields-unused n zero = tt
Yields-unused n (suc k) = (inl refl, Yields-unused n k)

-- Taking the job at index `length pre` out keeps the others in order.
pub remove-Holds :
    (q : PriJobqueue) (pre : List Job) (m : Job) (post : List Job)
    → Holds q (pre ++ (m ∷ post))
    → Holds (remove q (length pre)) (pre ++ post)
unfolding remove
remove-Holds q pre m post h = record {
  whole = h.whole;
  count = omega (arith, sizes);
  fits = omega (arith, sizes);
  slots = rw gap (
      rw last (
        rw laid (
          shift_loop-append pre m post free
            (All-labelled post (All-right IsQueued pre _ h.queued).1)
          ∙ sym (append_assoc pre post (unused ∷ free))
          ∙ ap (λ k. (pre ++ post) ++ replicate k unused) room)));
  queued =
      All-append IsQueued pre post (All-left IsQueued pre _ h.queued)
        (All-right IsQueued pre _ h.queued).1;
}
  where
    free : List Job
    free = replicate (job_buffer_size - length (pre ++ (m ∷ post))) unused

    sizes :
        (q.size ≡ length pre + length post + 1)
        × (length (pre ++ (m ∷ post)) ≡ length pre + length post + 1)
        × (length (pre ++ post) ≡ length pre + length post)
        × (length pre + length post + 1 ≤ 128)
    sizes = omega (arith, h.count, h.fits, length-append pre (m ∷ post), length-append pre post)

    room :
        suc (job_buffer_size - length (pre ++ (m ∷ post))) ≡ job_buffer_size - length (pre ++ post)
    room = omega (arith, sizes)

    gap : q.size - 1 - length pre ≡ length post
    gap = omega (arith, sizes)

    last : q.size - 1 ≡ length pre + length post
    last = omega (arith, sizes)

    laid : q.jobs ≡ pre ++ (m ∷ (post ++ free))
    laid = h.slots ∙ append_assoc pre (m ∷ post) free

-- The search finds the job that the abstract queue picks.
pub find-Picks :
    (q : PriJobqueue) (live : List Job) (m : Job) (rest : List Job)
    → Holds q live
    → (p : Picks live m rest) → find_highest_priority_job q ≡ some (length p.pre)
unfolding find_highest_priority_job is_empty
find-Picks q live m rest h p =
    let some_jobs : (q.size == 0) ≡ false = ground (arith, count) in
    rw some_jobs (
      rw whole (
        rw laid (
          find_loop-finds p.pre m (p.post ++ free) (2 ^ 32 - 1) ranked p.before (
            All-append (Yields m.priority) p.post free (All-Yields m.priority p.post p.after)
              (Yields-unused m.priority _)))))
  where
    free : List Job
    free = replicate (job_buffer_size - length live) unused

    count : (q.size ≡ length p.pre + suc (length p.post))
    count = h.count ∙ ap length p.whole ∙ length-append p.pre (m ∷ p.post)

    laid : q.jobs ≡ p.pre ++ (m ∷ (p.post ++ free))
    laid = h.slots ∙ ap (λ l. l ++ free) p.whole ∙ append_assoc p.pre (m ∷ p.post) free

    whole : q.buf_size ≡ length (p.pre ++ (m ∷ (p.post ++ free)))
    whole = omega (
      arith,
      h.whole,
      h.count,
      h.fits,
      count,
      length-append p.pre (m ∷ (p.post ++ free)),
      length-append p.post free,
      length-replicate {A = Job} (job_buffer_size - length live) unused,
    )

    ranked : m.priority ≢ 0
    ranked =
        (All-right IsQueued p.pre (m ∷ p.post) (subst (All IsQueued) p.whole h.queued)).0.ranked

pub deliver-Delivers :
    (j : Job) (dst : Ptr) (h : Heap) → HasLabel j → Delivers j dst h (deliver j dst h)
unfolding deliver new set_job malloc
deliver-Delivers j (some d) h full =
    ground (arith, has_full_label_of_full j full, copied_self j full)
deliver-Delivers j none h full = elim (Bool-cases (h.refuse h.next)) [
  | inl e ↦ ground arith
  | inr e ↦ ground (arith, stored_self j full)
]
