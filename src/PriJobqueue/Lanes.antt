-- ===== src/PriJobqueue/Lanes.antt =====
-- Lists of jobs that differ in the order of jobs of different priorities only.
pub mod Unordered
pub mod Swap
use csc.Base.{
  ℕ, zero, suc, ◌+◌, ◌≤◌, ◌<◌, ◌≡◌, ◌≢◌, refl, sym, ap, ◌∙◌, subst, true, false, Option, none, some,
  List, [], ◌∷◌, ◌++◌, arith, length, length-append, All, Bool-cases, inl, inr, ◌==◌, ==_iff,
  if◌then◌else◌, dec_lt, Bool, ℕ_discrete,
}
use csc.Base.Int.{ℤ}
use csc.Job.{Job}
use csc.PriJobqueue.Spec.{pop, push, accepts, Picks, pop-Picks, Picks-le}
use csc.PriJobqueue.Drain.{
  of_priority, of_priority-append, of_priority_above, of_priority-Picks, length-Picks,
}

-- For each priority the same jobs, in the same order.
abbrev pub SameLanes : List Job → List Job → Type 0
SameLanes xs ys = (c : ℕ) → of_priority c xs ≡ of_priority c ys

abbrev first : Job → List Job → Job
first d [] = d
first d (x ∷ xs) = x

abbrev others : List Job → List Job
others [] = []
others (x ∷ xs) = xs

All-lt_of_le :
    (c n : ℕ) (xs : List Job) → c < n → All (λ j. n ≤ j.priority) xs → All (λ j. c < j.priority) xs
All-lt_of_le c n [] lt a = tt
All-lt_of_le c n (x ∷ xs) lt a = (omega arith, All-lt_of_le c n xs lt a.1)

-- A priority that some job has is not below the least.
at_least :
    (n c : ℕ) (xs : List Job) (m : Job) (ms : List Job)
    → All (λ j. n ≤ j.priority) xs
    → of_priority c xs ≡ m ∷ ms
    → n ≤ c
at_least n c xs m ms all e = elim (dec_lt c n) [
  | yes lt ↦ cc (of_priority_above c xs (All-lt_of_le c n xs lt all))
  | no ge ↦ omega arith
]

of_priority-here :
    (c : ℕ) (m : Job) (xs : List Job)
    → m.priority ≡ c
    → of_priority c (m ∷ xs) ≡ m ∷ of_priority c xs
unfolding of_priority
of_priority-here c m xs e = ground (arith, e)

of_priority-there :
    (c : ℕ) (m : Job) (xs : List Job) → m.priority ≢ c → of_priority c (m ∷ xs) ≡ of_priority c xs
unfolding of_priority
of_priority-there c m xs ne = ground (arith, ne)

-- The picks of two lists with the same lanes are the same job, and leave the same lanes.
module _ (xs ys : List Job) (m n : Job) (r s : List Job) (p : Picks xs m r) (q : Picks ys n s)
    (same : SameLanes xs ys) where
  with_picks : SameLanes (m ∷ r) (n ∷ s)
  with_picks c = of_priority-Picks c xs m r p ∙ same c ∙ sym (of_priority-Picks c ys n s q)

  same_priority : m.priority ≡ n.priority
  same_priority = omega (
    arith,
    at_least n.priority m.priority ys m (of_priority m.priority r) (Picks-le ys n s q) (
        sym (same m.priority)
        ∙ sym (of_priority-Picks m.priority xs m r p)
        ∙ of_priority-here m.priority m r refl),
    at_least m.priority n.priority xs n (of_priority n.priority s) (Picks-le xs m r p) (
        same n.priority
        ∙ sym (of_priority-Picks n.priority ys n s q)
        ∙ of_priority-here n.priority n s refl),
  )

  at_front : m ∷ of_priority m.priority r ≡ n ∷ of_priority m.priority s
  at_front =
      sym (of_priority-here m.priority m r refl)
      ∙ with_picks m.priority
      ∙ of_priority-here m.priority n s (sym same_priority)

  same_pick : m ≡ n
  same_pick = ap (first m) at_front

  same_rest : SameLanes r s
  same_rest c = elim (ℕ_discrete m.priority c) [
    | yes e ↦ subst (λ d. of_priority d r ≡ of_priority d s) e (ap others at_front)
    | no ne ↦
        sym (of_priority-there c m r ne)
        ∙ with_picks c
        ∙ of_priority-there c n s (λ e. ne (same_priority ∙ e))
  ]

-- Only the empty list has empty lanes.
no_lane : (x : Job) (xs : List Job) → SameLanes [] (x ∷ xs) → ⊥
unfolding of_priority
no_lane x xs same = cc (same x.priority ∙ of_priority-here x.priority x xs refl)

abbrev pub SameNext : Option (Job × List Job) → Option (Job × List Job) → Type 0
SameNext none none = Unit
SameNext none (some b) = ⊥
SameNext (some a) none = ⊥
SameNext (some (m, r)) (some (n, s)) = (m ≡ n) × SameLanes r s

pub pop-SameNext : (xs ys : List Job) → SameLanes xs ys → SameNext (pop xs) (pop ys)
unfolding pop
pop-SameNext [] [] same = tt
pop-SameNext [] (y ∷ ys) same = absurd (no_lane y ys same)
pop-SameNext (x ∷ xs) [] same = absurd (no_lane x xs (λ c. sym (same c)))
pop-SameNext (x ∷ xs) (y ∷ ys) same =
    let (m, r, e, p) = pop-Picks x xs in
    let (n, s, f, q) = pop-Picks y ys in
    subst (λ o. SameNext o (pop (y ∷ ys))) (sym e)
      (subst (SameNext (some (m, r))) (sym f) (
        same_pick (x ∷ xs) (y ∷ ys) m n r s p q same,
        same_rest (x ∷ xs) (y ∷ ys) m n r s p q same,
      ))

-- As many rounds as there are jobs take all of them out, so that both lists are as long.
pub length-SameLanes :
    (k : ℕ) (xs ys : List Job) → length xs ≤ k → SameLanes xs ys → length xs ≡ length ys
length-SameLanes k [] [] le same = refl
length-SameLanes k [] (y ∷ ys) le same = absurd (no_lane y ys same)
length-SameLanes k (x ∷ xs) [] le same = absurd (no_lane x xs (λ c. sym (same c)))
length-SameLanes zero (x ∷ xs) (y ∷ ys) le same = absurd (omega arith)
length-SameLanes (suc k) (x ∷ xs) (y ∷ ys) le same =
    let (m, r, e, p) = pop-Picks x xs in
    let (n, s, f, q) = pop-Picks y ys in
    let fewer = length-Picks (x ∷ xs) m r p in
    let fewer' = length-Picks (y ∷ ys) n s q in
    let rest =
      length-SameLanes k r s (omega (arith, fewer))
        (same_rest (x ∷ xs) (y ∷ ys) m n r s p q same) in
    omega (arith, fewer, fewer', rest)
