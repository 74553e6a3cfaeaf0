-- ===== src/PriJobqueue/Life.antt =====
-- pri_jobqueue_new and pri_jobqueue_delete: queues in allocated memory.
use csc.Base.{
  ℕ, ◌≡◌, ◌≢◌, ◌⊎◌, inl, inr, refl, sym, subst, true, false, Option, none, some, [], length, arith,
  Bool-cases,
}
use csc.Base.Memory.{
  Memory, put, alloc, release, alloc_refused, grown, alloc_granted, release-grown, put_here,
  put_elsewhere,
}
use csc.PriJobqueue.{PriJobqueue, job_buffer_size, new}
use csc.PriJobqueue.Inv.{Holds}
use csc.PriJobqueue.Refine.{init-Holds}

-- The new queue is written to the memory that `malloc` has returned.
unfoldable pub set_up :
    Option ℕ → Memory PriJobqueue → Option PriJobqueue → Option ℕ × Memory PriJobqueue
set_up none m q = (none, m)
set_up (some p) m none = (some p, m)
set_up (some p) m (some q) = (some p, put p q m)

unfoldable pub raw_at : Option ℕ → Memory PriJobqueue → Option PriJobqueue
raw_at none m = none
raw_at (some p) m = some (m.content p)

-- pri_jobqueue_new
unfoldable pub allocate : Memory PriJobqueue → Option ℕ × Memory PriJobqueue
allocate m = let (p, m') = alloc m in set_up p m' (new (raw_at p m'))

-- pri_jobqueue_delete
unfoldable pub delete : Option ℕ → Memory PriJobqueue → Memory PriJobqueue
delete pjq m = release pjq m

-- What `pri_jobqueue_new` gives: no queue and nothing allocated, or a new queue that holds no jobs;
-- deleting it leaves in use what was in use before.
abbrev pub Allocates : Memory PriJobqueue → Option ℕ × Memory PriJobqueue → Type 0
Allocates m (r, m') =
    ((r ≡ none)
      × (m.refuse m.next ≡ true)
      × ((p : ℕ) → m'.live p ≡ m.live p)
      × ((p : ℕ) → m'.content p ≡ m.content p))
    ⊎ ((r ≡ some m.next)
        × (m'.live m.next ≡ true)
        × Holds (m'.content m.next) []
        × ((p : ℕ) → p ≢ m.next → m'.content p ≡ m.content p)
        × ((p : ℕ) → (delete r m').live p ≡ m.live p))

-- With new memory that is not in use and holds an array of 128 jobs, whatever it holds else:
-- `pri_jobqueue_new` returns a new queue that holds no jobs, and no other queue changes, and
-- `pri_jobqueue_delete` of it leaves in use what was in use before; or there is no memory, it
-- returns NULL, and nothing has changed.
pub allocate-Allocates :
    (m : Memory PriJobqueue)
    → m.live m.next ≡ false
    → length (m.content m.next).jobs ≡ job_buffer_size
    → Allocates m (allocate m)
unfolding allocate set_up raw_at new delete
allocate-Allocates m fresh size = elim (Bool-cases (m.refuse m.next)) [
  | inl e ↦
      subst (λ o. Allocates m (set_up o.0 o.1 (new (raw_at o.0 o.1)))) (sym (alloc_refused m e))
        (inl (refl, e, λ p. refl, λ p. refl))
  | inr e ↦
      let (q, made, holds) = init-Holds (m.content m.next) size in
      subst (λ o. Allocates m (set_up o.0 o.1 (new (raw_at o.0 o.1)))) (sym (alloc_granted m e))
        (subst (λ o. Allocates m (set_up (some m.next) (grown m) o)) (sym made)
          (inr (
            refl,
            ground arith,
            subst (λ c. Holds c []) (sym (put_here (grown m) m.next q)) holds,
            λ p d. put_elsewhere (grown m) m.next p q d,
            λ p. release-grown m q p fresh,
          )))
]
