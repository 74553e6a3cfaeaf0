-- ===== src/Job/Deliver.antt =====
-- What a function of the sources that returns a job in memory gives its caller.
use csc.Base.{ℕ, ◌≡◌, ◌≢◌, ◌⊎◌, true, none, some}
use csc.Job.{Job, Ptr, Heap}

-- Where a job is delivered: to `dst`, or to the next new address if `dst` is NULL.
abbrev pub target : Ptr → Heap → ℕ
target none h = h.next
target (some d) h = d

-- The caller has a copy of `j` at the target and no other job changed; or, if `dst` is NULL and
-- there is no memory, NULL and every job as before.
abbrev pub Delivers : Job → Ptr → Heap → Ptr × Heap → Type 0
Delivers j dst h (r, h') =
    ((r ≡ some (target dst h))
      × (h'.cell (target dst h) ≡ j)
      × ((p : ℕ) → p ≢ target dst h → h'.cell p ≡ h.cell p))
    ⊎ ((dst ≡ none) × (h.refuse h.next ≡ true) × (r ≡ none) × ((p : ℕ) → h'.cell p ≡ h.cell p))
