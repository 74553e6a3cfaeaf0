-- ===== src/Job/Text/Keeps.antt =====
-- What str_to_job leaves as it was, whatever the text is.
use csc.Base.{
  ℕ, suc, ◌≡◌, ◌≢◌, ◌⊎◌, refl, sym, subst, true, false, Option, none, some, List, ◌==◌, arith, inl,
  inr, Bool-cases,
}
use csc.Base.Int.{ℤ}
use csc.CString.{until_nul, strlen}
use csc.Job.{Ptr, Heap, malloc, free, update}
use csc.Job.Deliver.{target}
use csc.Job.Text.{scan_job, target_job, fill_job, str_to_job}

-- The result is NULL, and as much memory is in use as before, or it is the target; no other job
-- changes.
abbrev pub Keeps : Ptr → Heap → Ptr × Heap → Type 0
Keeps dst h (r, h') =
    (((r ≡ none) × ((p : ℕ) → h'.live p ≡ h.live p)) ⊎ (r ≡ some (target dst h)))
    × ((p : ℕ) → p ≢ target dst h → h'.cell p ≡ h.cell p)

malloc_refused :
    (h : Heap) → h.refuse h.next ≡ true → malloc h ≡ (none, record h { next = suc h.next })
unfolding malloc
malloc_refused h e = ground arith

-- The new block `next`.
abbrev grown : Heap → Heap
grown h = record h {
  cell = update h.cell h.next h.raw;
  live = update h.live h.next true;
  next = suc h.next;
}

malloc_granted : (h : Heap) → h.refuse h.next ≡ false → malloc h ≡ (some h.next, grown h)
unfolding malloc
malloc_granted h e = ground arith

no_memory :
    (read : Option (ℤ × ℕ × ℕ × List ℕ)) (h : Heap)
    → Keeps none h (fill_job none read (none, record h { next = suc h.next }))
unfolding fill_job
no_memory none h = (inl (refl, λ p. refl), λ p e. refl)
no_memory (some v) h = (inl (refl, λ p. refl), λ p e. refl)

-- The new block is freed where the text cannot be read.
with_memory :
    (read : Option (ℤ × ℕ × ℕ × List ℕ)) (h : Heap)
    → h.live h.next ≡ false
    → Keeps none h (fill_job none read (some h.next, grown h))
unfolding fill_job free
with_memory none h fresh = (inl (refl, λ p. ground (arith, fresh)), λ p e. ground arith)
with_memory (some (pid, id, priority, label)) h fresh = (inr refl, λ p e. ground arith)

fill_job-Keeps :
    (dst : Ptr) (read : Option (ℤ × ℕ × ℕ × List ℕ)) (h : Heap)
    → h.live h.next ≡ false
    → Keeps dst h (fill_job dst read (target_job dst h))
unfolding fill_job
fill_job-Keeps (some d) none h fresh = (inl (refl, λ p. refl), λ p e. refl)
fill_job-Keeps (some d) (some (pid, id, priority, label)) h fresh = (inr refl, λ p e. ground arith)
fill_job-Keeps none read h fresh = elim (Bool-cases (h.refuse h.next)) [
  | inl e ↦
      subst (λ o. Keeps none h (fill_job none read o)) (sym (malloc_refused h e)) (no_memory read h)
  | inr e ↦
      subst (λ o. Keeps none h (fill_job none read o)) (sym (malloc_granted h e))
        (with_memory read h fresh)
]

-- For every text, with new memory that is not in use, `str_to_job` returns NULL and as much
-- memory is in use as before, or it returns `dst`, or the new job where `dst` is NULL; no job but
-- that one changes.
pub str_to_job-Keeps :
    (str : Option (List ℕ)) (dst : Ptr) (h : Heap)
    → h.live h.next ≡ false
    → Keeps dst h (str_to_job str dst h)
unfolding str_to_job
str_to_job-Keeps none dst h fresh = (inl (refl, λ p. refl), λ p e. refl)
str_to_job-Keeps (some s) dst h fresh = elim (Bool-cases (strlen s == 68)) [
  | inl e ↦ rw e (fill_job-Keeps dst (scan_job (until_nul s)) h fresh)
  | inr e ↦ rw e (inl (refl, λ p. refl), λ p d. refl)
]
