-- ===== src/Job/New.antt =====
-- job_new and job_delete: the job that is made, and the memory that is given back.
use csc.Base.{
  ℕ, suc, ◌≤◌, ◌≡◌, ◌≢◌, ◌⊎◌, inl, inr, refl, true, false, Option, none, some, List, arith,
  Bool-cases,
}
use csc.Base.Int.{ℤ}
use csc.Job.{Job, Ptr, Heap, malloc, free, update, set_job, new, delete}
use csc.Job.Label.{padded, label_text, stored_label-padded}

-- The job of these arguments.
abbrev pub described : ℤ → ℕ → ℕ → Option (List ℕ) → Job
described pid id priority label = record {
  pid = pid;
  id = id;
  priority = priority;
  label = padded (label_text label);
}

-- The result is a new job `j`, and deleting it leaves in use what was in use before; or it is NULL,
-- where there is no memory. No other job changes.
abbrev pub Makes : Job → Heap → Ptr × Heap → Type 0
Makes j h (r, h') =
    (h.refuse h.next ≡ false)
      × (r ≡ some h.next)
      × (h'.cell h.next ≡ j)
      × ((p : ℕ) → p ≢ h.next → h'.cell p ≡ h.cell p)
      × ((p : ℕ) → (delete r h').live p ≡ h.live p)
    ⊎ (h.refuse h.next ≡ true)
      × (r ≡ none)
      × ((p : ℕ) → h'.cell p ≡ h.cell p)
      × ((p : ℕ) → h'.live p ≡ h.live p)

-- What `job_new` leaves where there is memory.
abbrev pub with_new : Job → Heap → Heap
with_new j h = record h {
  cell = update (update h.cell h.next h.raw) h.next j;
  live = update h.live h.next true;
  next = suc h.next;
}

pub new-granted :
    (pid : ℤ) (id priority : ℕ) (label : Option (List ℕ)) (h : Heap)
    → h.refuse h.next ≡ false
    → new pid id priority label h ≡ (some h.next, with_new (described pid id priority label) h)
unfolding new malloc set_job
new-granted pid id priority label h e = rw e (rw (stored_label-padded label) refl)

-- With new memory that is not in use, `job_new` returns NULL where `malloc` fails, and then no
-- job changes and no memory is in use that was not; otherwise it returns a new job with the given
-- fields, whose label is the given one cut or padded with '*' to 31 characters, no other job
-- changes, and `job_delete` of it leaves in use what was in use before.
pub new-Makes :
    (pid : ℤ) (id priority : ℕ) (label : Option (List ℕ)) (h : Heap)
    → h.live h.next ≡ false
    → Makes (described pid id priority label) h (new pid id priority label h)
unfolding new malloc set_job delete free
new-Makes pid id priority label h fresh = elim (Bool-cases (h.refuse h.next)) [
  | inl e ↦ rw e (inr (refl, refl, λ p. refl, λ p. refl))
  | inr e ↦ rw e (
      rw (stored_label-padded label)
        (inl (refl, refl, ground arith, λ p ne. ground arith, λ p. ground (arith, fresh))))
]

-- `malloc` does not fail, and memory that it has not given yet is not in use.
pub record IsPlentiful (h : Heap) : Type 0 where
  pub granted : (p : ℕ) → h.refuse p ≡ false
  pub fresh : (p : ℕ) → h.next ≤ p → h.live p ≡ false

-- As much memory is in use as before, and there is as much left.
pub record Returned (h h' : Heap) : Type 0 where
  pub live : (p : ℕ) → h'.live p ≡ h.live p
  pub plenty : IsPlentiful h'

pub new-Returned :
    (pid : ℤ) (id priority : ℕ) (label : Option (List ℕ)) (h : Heap)
    → IsPlentiful h
    → let (r, h') = new pid id priority label h in Returned h (delete r h')
unfolding delete free
new-Returned pid id priority label h plenty =
    rw (new-granted pid id priority label h (plenty.granted h.next)) (record {
      live = λ p. ground (arith, plenty.fresh h.next (omega arith));
      plenty = record {
        granted = plenty.granted;
        fresh = λ p le. ground (arith, plenty.fresh p (omega arith));
      };
    })
