-- ===== src/PriJobqueue/Spec.antt =====
-- The contract of pri_jobqueue.h: a bounded queue of jobs in order of arrival. The next job is the
-- one of least priority number, and of several such the one that came first.
use csc.Base.{
  ℕ, ◌≤◌, ◌<◌, ◌≡◌, refl, sym, subst, ap, Bool, ◌&&◌, Option, none, some, List, [], ◌∷◌, ◌++◌, ltb,
  ◌==◌, not, if◌then◌else◌, arith, length, All, Bool-cases, inl, inr,
}
use csc.CString.{strnlen}
use csc.Job.{Job}

-- The job to dequeue, and the jobs left.
unfoldable pub pop : List Job → Option (Job × List Job)
pop [] = none
pop (x ∷ xs) = elim (pop xs) [
  | none ↦ some (x, [])
  | some (m, rest) ↦ if ltb m.priority x.priority then some (m, x ∷ rest) else some (x, xs)
]

-- `m` is the first of the jobs of least priority number in `live`, and `rest` are the others, in
-- order.
pub record Picks (live : List Job) (m : Job) (rest : List Job) : Type 0 where
  pub pre : List Job
  pub post : List Job
  pub whole : live ≡ pre ++ (m ∷ post)
  pub others : rest ≡ pre ++ post
  pub before : All (λ j. m.priority < j.priority) pre
  pub after : All (λ j. m.priority ≤ j.priority) post

All-le_trans :
    (n m : ℕ) (xs : List Job) → n ≤ m → All (λ j. m ≤ j.priority) xs → All (λ j. n ≤ j.priority) xs
All-le_trans n m [] h a = tt
All-le_trans n m (x ∷ xs) h a = (omega arith, All-le_trans n m xs h a.1)

All-le_of_lt : (n : ℕ) (xs : List Job) → All (λ j. n < j.priority) xs → All (λ j. n ≤ j.priority) xs
All-le_of_lt n [] a = tt
All-le_of_lt n (x ∷ xs) a = (omega arith, All-le_of_lt n xs a.1)

All-middle :
    (P : Job → Type 0) (xs : List Job) (y : Job) (ys : List Job)
    → All P xs
    → P y
    → All P ys
    → All P (xs ++ (y ∷ ys))
All-middle P [] y ys hx hy hs = (hy, hs)
All-middle P (x ∷ xs) y ys hx hy hs = (hx.0, All-middle P xs y ys hx.1 hy hs)

-- Everything in a list is at or above the pick of the list.
pub Picks-le :
    (live : List Job) (m : Job) (rest : List Job)
    → Picks live m rest
    → All (λ j. m.priority ≤ j.priority) live
Picks-le live m rest p =
    subst (All (λ j. m.priority ≤ j.priority)) (sym p.whole)
      (All-middle _ p.pre m p.post (All-le_of_lt m.priority p.pre p.before) (omega arith) p.after)

-- A nonempty queue has a next job, which `pop` takes out.
pub pop-Picks :
    (x : Job) (xs : List Job)
    → (m : Job) × (rest : List Job) × (pop (x ∷ xs) ≡ some (m, rest)) × Picks (x ∷ xs) m rest
unfolding pop
pop-Picks x [] = (
  x,
  [],
  refl,
  record { pre = []; post = []; whole = refl; others = refl; before = tt; after = tt },
)
pop-Picks x (y ∷ ys) =
    let (m, rest, e, p) = pop-Picks y ys in
    elim (Bool-cases (ltb m.priority x.priority)) [
      | inl lt ↦ (
        m,
        x ∷ rest,
        rw (e, pop) (rw lt),
        record {
          pre = x ∷ p.pre;
          post = p.post;
          whole = ap (◌∷◌ x) p.whole;
          others = ap (◌∷◌ x) p.others;
          before = (ground arith, p.before);
          after = p.after;
        },
      )
      | inr ge ↦ (
        x,
        y ∷ ys,
        rw (e, pop) (rw ge),
        record {
          pre = [];
          post = y ∷ ys;
          whole = refl;
          others = refl;
          before = tt;
          after =
              All-le_trans x.priority m.priority (y ∷ ys) (ground arith)
                (Picks-le (y ∷ ys) m rest p);
        },
      )
    ]

-- The jobs that the queue takes: there is room, the priority is valid, and the label is whole.
unfoldable pub accepts : List Job → Job → Bool
accepts live j = ltb (length live) 128 && (not (j.priority == 0) && strnlen j.label 32 == 31)

unfoldable pub push : List Job → Job → List Job
push live j = if accepts live j then live ++ (j ∷ []) else live
