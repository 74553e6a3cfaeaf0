-- ===== src/PriJobqueue/Find.antt =====
-- `find_highest_priority_job` finds the first of the jobs of least priority number.
use csc.Base.{
  ℕ, ◌+◌, ◌≤◌, ◌<◌, ◌≡◌, ◌≢◌, refl, sym, ap, ◌∙◌, true, false, Option, none, some, List, [], ◌∷◌,
  ◌++◌, append_assoc, if◌then◌else◌, arith, length, length-append, get_or-append, All, Bool-cases,
  inl, inr, ◌⊎◌,
}
use csc.Job.{Job, unused}
use csc.PriJobqueue.{improves, find_loop}

-- The loop as a recursion on the slots that it still has to read.
scan : List Job → ℕ → Option ℕ → ℕ → Option ℕ
scan [] i idx pri = idx
scan (x ∷ xs) i idx pri =
    let better = improves x.priority pri idx in
    scan xs (i + 1) (if better then some i else idx) (if better then x.priority else pri)

find_loop-scan :
    (xs pre : List Job) (idx : Option ℕ) (pri : ℕ)
    → find_loop (length xs) (pre ++ xs) (length pre) idx pri ≡ scan xs (length pre) idx pri
unfolding find_loop scan
find_loop-scan [] pre idx pri = refl
find_loop-scan (x ∷ xs) pre idx pri =
    let moved : pre ++ (x ∷ xs) ≡ (pre ++ (x ∷ [])) ++ xs = sym (append_assoc pre (x ∷ []) xs) in
    let size : length pre + 1 ≡ length (pre ++ (x ∷ [])) =
      omega (arith, length-append pre (x ∷ [])) in
    rw (get_or-append pre xs x unused, find_loop)
      (rw size (rw moved (find_loop-scan xs (pre ++ (x ∷ [])) _ _)))

-- A slot that cannot replace a pick of priority `pri`: unused, or no better.
abbrev pub Yields : ℕ → Job → Type 0
Yields pri j = (j.priority ≡ 0) ⊎ (pri ≤ j.priority)

scan-after : (xs : List Job) (i k pri : ℕ) → All (Yields pri) xs → scan xs i (some k) pri ≡ some k
unfolding scan improves
scan-after [] i k pri h = refl
scan-after (x ∷ xs) i k pri (y, h) =
    let keeps : improves x.priority pri (some k) ≡ false = ground arith in
    rw keeps (scan-after xs (i + 1) k pri h)

-- What the loop has found so far is worse than priority `n`.
abbrev Worse : ℕ → Option ℕ → ℕ → Type 0
Worse n none pri = Unit
Worse n (some k) pri = n < pri

improves_of_Worse :
    (n pri : ℕ) (idx : Option ℕ) → n ≢ 0 → Worse n idx pri → improves n pri idx ≡ true
unfolding improves
improves_of_Worse n pri none ne w = ground arith
improves_of_Worse n pri (some k) ne w = ground arith

scan-before :
    (pre : List Job) (m : Job) (post : List Job) (i : ℕ) (idx : Option ℕ) (pri : ℕ)
    → m.priority ≢ 0
    → All (λ j. m.priority < j.priority) pre
    → All (Yields m.priority) post
    → Worse m.priority idx pri
    → scan (pre ++ (m ∷ post)) i idx pri ≡ some (i + length pre)
unfolding scan improves
scan-before [] m post i idx pri ne b a w =
    rw (improves_of_Worse m.priority pri idx ne w, scan)
      (scan-after post (i + 1) i m.priority a ∙ ap some (omega arith))
scan-before (x ∷ pre) m post i idx pri ne b a w = elim (Bool-cases (improves x.priority pri idx)) [
  | inl e ↦
      rw (e, scan)
        (scan-before pre m post (i + 1) (some i) x.priority ne b.1 a b.0 ∙ ap some (omega arith))
  | inr e ↦ rw (e, scan) (scan-before pre m post (i + 1) idx pri ne b.1 a w ∙ ap some (omega arith))
]

-- Over slots `pre ++ m ∷ post` the loop stops with the index of `m`.
pub find_loop-finds :
    (pre : List Job) (m : Job) (post : List Job) (pri : ℕ)
    → m.priority ≢ 0
    → All (λ j. m.priority < j.priority) pre
    → All (Yields m.priority) post
    → find_loop (length (pre ++ (m ∷ post))) (pre ++ (m ∷ post)) 0 none pri ≡ some (length pre)
find_loop-finds pre m post pri ne b a =
    find_loop-scan (pre ++ (m ∷ post)) [] none pri
    ∙ scan-before pre m post 0 none pri ne b a tt
    ∙ ap some (omega arith)
