-- ===== src/Job/Tests.antt =====
-- Concrete runs of job.c, and the theorems about it at concrete inputs.
use csc.Base.{ℕ, ◌≡◌, ◌⊎◌, refl, true, false, none, some, List, [], ◌∷◌, ◌++◌, arith, ltb}
use csc.Base.Int.{pos}
use csc.CString.{codes, strnlen, strncpy, snprintf_s}
use csc.Job.{
  Job, Heap, Ptr, update, malloc, unused, pad_loop, pad_label, is_blank, stored_label, set_job, new,
  copy, is_equal,
}
use csc.Job.New.{described, Makes, new-Makes}
use csc.Job.Copy.{HasLabel, Copies, copy-Copies}

abbrev letters : List ℕ
letters = codes "abcdefghijklmnopqrstuvwxyz01234" ++ (0 ∷ [])

abbrev job : Job
job = record { pid = pos 7; id = 1; priority = 2; label = letters }

-- The job stands at address 0.
abbrev heap : Heap
heap = record {
  cell = update (λ _. unused) 0 job;
  live = λ p. ltb p 10;
  next = 10;
  refuse = λ _. false;
  raw = job;
}

newjob_label :
    stored_label (some (codes "newjob")) ≡ codes "newjob*************************" ++ (0 ∷ [])
unfolding stored_label is_blank pad_label pad_loop snprintf_s strnlen strncpy
newjob_label = refl

blank_label : stored_label (some (0 ∷ codes "x")) ≡ stored_label none
unfolding stored_label is_blank
blank_label = refl

new_job : (new (pos 5) 2 3 none heap).0 ≡ some 10
unfolding new malloc set_job
new_job = refl

job-HasLabel : HasLabel job
unfolding strnlen
job-HasLabel = record { size = refl; text = refl }

new-Makes_example :
    Makes
      (described (pos 7) 3 2 (some (codes "a b")))
      heap
      (new (pos 7) 3 2 (some (codes "a b")) heap)
new-Makes_example = new-Makes (pos 7) 3 2 (some (codes "a b")) heap refl

copy-Copies_example :
    (((copy (some 0) none heap).0 ≡ some 10)
      × Copies 0 10 heap (copy (some 0) none heap).1
      × (is_equal (some 0) (some 10) (copy (some 0) none heap).1 ≡ true))
    ⊎ ((◌≡◌ {A = Ptr} none none)
        × (false ≡ true)
        × ((copy (some 0) none heap).0 ≡ none)
        × ((p : ℕ) → (copy (some 0) none heap).1.cell p ≡ heap.cell p))
copy-Copies_example = copy-Copies 0 none heap job-HasLabel (omega arith)
