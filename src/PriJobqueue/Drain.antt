-- ===== src/PriJobqueue/Drain.antt =====
-- The loop that pri_jobqueue.h shows: dequeue until the queue is empty. The jobs come out in order
-- of priority, and those of one priority in order of arrival.
pub mod New
use csc.Base.{
  ℕ, zero, suc, ◌+◌, ◌≤◌, ◌<◌, ◌≡◌, refl, sym, ap, ap₂, ◌∙◌, subst, true, false, Option, some, List,
  [], ◌∷◌, ◌++◌, arith, length, length-append, All, All-append, All-left, All-right, Bool-cases,
  inl, inr, ◌==◌, ==_iff, map, if◌then◌else◌,
}
use csc.Job.{Job, Ptr, Heap}
use csc.PriJobqueue.{PriJobqueue, is_empty, dequeue}
use csc.PriJobqueue.Spec.{Picks, pop-Picks, Picks-le}
use csc.PriJobqueue.Inv.{Holds}
use csc.PriJobqueue.Refine.{observers_agree, Dequeued, dequeue_refines}
use csc.PriJobqueue.Trace.{received, answer, left, Served, serve}

-- `while (!pri_jobqueue_is_empty(pjq)) { j = pri_jobqueue_dequeue(pjq, &dst); … }` with at most
-- `fuel` rounds: the jobs that it sees, and the queue that it leaves. `dst` is at address 1.
pub drain : ℕ → Option PriJobqueue → Heap → List (Option Job) × Option PriJobqueue
drain zero pq h = ([], pq)
drain (suc fuel) pq h =
    let (r, pq', h') = dequeue pq (some 1) h in
    let rest = drain fuel pq' h' in
    if is_empty pq then ([], pq) else (received r h' ∷ rest.0, rest.1)

-- Jobs in order of priority number.
abbrev pub IsSorted : List Job → Type 0
IsSorted [] = Unit
IsSorted (x ∷ xs) = All (λ j. x.priority ≤ j.priority) xs × IsSorted xs

-- The jobs of priority `c`, in the order of the list.
unfoldable pub of_priority : ℕ → List Job → List Job
of_priority c [] = []
of_priority c (x ∷ xs) = if x.priority == c then x ∷ of_priority c xs else of_priority c xs

pub of_priority-append :
    (c : ℕ) (xs ys : List Job) → of_priority c (xs ++ ys) ≡ of_priority c xs ++ of_priority c ys
unfolding of_priority
of_priority-append c [] ys = refl
of_priority-append c (x ∷ xs) ys = ground (arith, of_priority-append c xs ys)

pub of_priority_above :
    (c : ℕ) (xs : List Job) → All (λ j. c < j.priority) xs → of_priority c xs ≡ []
unfolding of_priority
of_priority_above c [] h = refl
of_priority_above c (x ∷ xs) (above, h) = ground (arith, of_priority_above c xs h)

-- Putting the picked job before the others keeps the order within each priority.
pub of_priority-Picks :
    (c : ℕ) (live : List Job) (m : Job) (rest : List Job)
    → Picks live m rest
    → of_priority c (m ∷ rest) ≡ of_priority c live
unfolding of_priority
of_priority-Picks c live m rest p =
    rw (p.whole, p.others)
      (elim (Bool-cases (m.priority == c)) [
        | inl e ↦
            let same : m.priority ≡ c = (==_iff m.priority c).0 e in
            ground (
              arith,
              of_priority-append c p.pre p.post,
              of_priority-append c p.pre (m ∷ p.post),
              of_priority_above c p.pre
                  (subst (λ n. All (λ j. n < j.priority) p.pre) same p.before),
            )
        | inr e ↦
            ground
              (arith, of_priority-append c p.pre p.post, of_priority-append c p.pre (m ∷ p.post))
      ])

All-Picks :
    (P : Job → Type 0) (live : List Job) (m : Job) (rest : List Job)
    → Picks live m rest
    → All P live
    → All P rest
All-Picks P live m rest p h =
    let h' = subst (All P) p.whole h in
    subst (All P) (sym p.others)
      (All-append P p.pre p.post (All-left P p.pre _ h') (All-right P p.pre _ h').1)

pub length-Picks :
    (live : List Job) (m : Job) (rest : List Job)
    → Picks live m rest
    → length live ≡ length rest + 1
length-Picks live m rest p =
    rw (p.whole, p.others)
      (omega (arith, length-append p.pre (m ∷ p.post), length-append p.pre p.post))

-- What the loop has done to a queue that held `live`, with `out` what it returns.
pub record Drained (live : List Job) (out : List (Option Job) × Option PriJobqueue) : Type 0 where
  pub seen : List Job
  pub queue : PriJobqueue
  pub same : out ≡ (map some seen, some queue)
  pub emptied : Holds queue []
  pub ordered : IsSorted seen
  pub stable : (c : ℕ) → of_priority c seen ≡ of_priority c live
  pub above : (n : ℕ) → All (λ j. n ≤ j.priority) live → All (λ j. n ≤ j.priority) seen

of_priority-cons :
    (c : ℕ) (m : Job) (xs ys : List Job)
    → of_priority c xs ≡ of_priority c ys
    → of_priority c (m ∷ xs) ≡ of_priority c (m ∷ ys)
unfolding of_priority
of_priority-cons c m xs ys e = ground arith

-- One round that takes the pick `m`, and the rounds after it.
pub Drained-step :
    (live : List Job) (m : Job) (rest : List Job) (r : Ptr) (pq : Option PriJobqueue) (h : Heap)
    (rounds : Option PriJobqueue → List (Option Job) × Option PriJobqueue)
    → Picks live m rest
    → (s : Served live (some (m, rest)) r pq h) → Drained rest (rounds (some s.queue))
    → Drained live (received r h ∷ (rounds pq).0, (rounds pq).1)
unfolding of_priority answer left
Drained-step live m rest r pq h rounds p s d = record {
  seen = m ∷ d.seen;
  queue = d.queue;
  same =
      ap₂ (λ (a : Option Job) (b : List (Option Job) × Option PriJobqueue). (a ∷ b.0, b.1)) s.seen
        (ap rounds s.same ∙ d.same);
  emptied = d.emptied;
  ordered = (d.above m.priority (All-Picks _ live m rest p (Picks-le live m rest p)), d.ordered);
  stable = λ c. of_priority-cons c m d.seen rest (d.stable c) ∙ of_priority-Picks c live m rest p;
  above = λ n a. (
    (All-right _ p.pre (m ∷ p.post) (subst (All (λ j. n ≤ j.priority)) p.whole a)).0,
    d.above n (All-Picks _ live m rest p a),
  );
}

-- No job, and so no round.
pub Drained-empty : (q : PriJobqueue) → Holds q [] → Drained [] ([], some q)
unfolding of_priority
Drained-empty q holds = record {
  seen = [];
  queue = q;
  same = refl;
  emptied = holds;
  ordered = tt;
  stable = λ c. refl;
  above = λ n a. tt;
}

-- With at least as many rounds as there are jobs, the documented loop that dequeues while the
-- queue is not empty ends with an empty queue; the jobs come out sorted by priority and, within
-- each priority, in the order in which they were enqueued.
pub drain-Drained :
    (fuel : ℕ) (q : PriJobqueue) (live : List Job) (h : Heap)
    → Holds q live
    → length live ≤ fuel
    → Drained live (drain fuel (some q) h)
unfolding drain left
drain-Drained zero q [] h holds enough = Drained-empty q holds
drain-Drained zero q (x ∷ xs) h holds enough = absurd (omega arith)
drain-Drained (suc fuel) q [] h holds enough =
    let none_left : is_empty (some q) ≡ true = (observers_agree q [] holds).0 in
    rw none_left (Drained-empty q holds)
drain-Drained (suc fuel) q (x ∷ xs) h holds enough =
    let (m, rest, e, p) = pop-Picks x xs in
    let out = dequeue (some q) (some 1) h in
    let found : (length (x ∷ xs) == 0) ≡ false = ground arith in
    let some_left : is_empty (some q) ≡ false = (observers_agree q (x ∷ xs) holds).0 ∙ found in
    let s : Served (x ∷ xs) (some (m, rest)) out.0 out.1 out.2 =
      serve q (x ∷ xs) (some 1) h (some (m, rest)) out (λ n. cc) holds
        (subst (λ o. Dequeued o q (some 1) h out) e
          (dequeue_refines q (x ∷ xs) (some 1) h holds)) in
    let fewer : length rest ≤ fuel = omega (arith, length-Picks (x ∷ xs) m rest p) in
    rw some_left (
      Drained-step (x ∷ xs) m rest out.0 out.1 out.2 (λ u. drain fuel u out.2) p s
        (drain-Drained fuel s.queue rest out.2 s.holds fewer))
