-- ===== src/SemJobqueue/Keeps.antt =====
-- Every step of every process keeps the invariant.
use csc.Base.{
  ℕ, ◌+◌, ◌≤◌, ◌<◌, ◌≡◌, refl, ap, subst, Bool, true, false, some, List, length, arith, ℕ_discrete,
}
use csc.Job.{Job, Heap, update}
use csc.Ipc.{Ipc}
use csc.SemJobqueue.{
  Shared, Wait, Call, Answer, dequeue, enqueue, look, Pc, rest, dequeuing, enqueuing, looking,
  entry, step,
}
use csc.SemJobqueue.Family.{sum_below-update, weight-le-sum, sums-lt}
use csc.SemJobqueue.Processes.{Process, State, IsSizedHeap, IsProper, Step, Reach}
use csc.SemJobqueue.Invariant.{
  locked, taken, due, in_flight, total, IsReady, Inv, Effect, dequeue_step-Effect,
  enqueue_step-Effect, look_step-Effect,
}
use csc.SemJobqueue.Moves.{Moved, Before, quiet}
use csc.SemJobqueue.Moves.Looking.{look_step-Moved}
use csc.SemJobqueue.Moves.Enqueuing.{enqueue_step-Moved}
use csc.SemJobqueue.Moves.Dequeuing.{dequeue_step-Moved}

-- Process `i` goes on with the memory `h` at `p`.
abbrev pub go_on : State → ℕ → Shared → Heap → Pc → State
go_on s i t h p = record {
  shared = t;
  procs = update s.procs i (record { ijq = (s.procs i).ijq; heap = h; pc = p });
}

pub total-go_on :
    (w : Pc → ℕ) (n i : ℕ) (s : State) (t : Shared) (h : Heap) (p : Pc)
    → i < n
    → total w n (go_on s i t h p) + w (s.procs i).pc ≡ total w n s + w p
total-go_on w n i s t h p below =
    sum_below-update (λ (q : Process). w q.pc) n i s.procs
      (record { ijq = (s.procs i).ijq; heap = h; pc = p }) below

-- What holds of each process still does when it does of the one that goes on.
pub each {ℓ m} :
    {A : Type ℓ} (P : A → Type m) (i : ℕ) (f : ℕ → A) (a : A)
    → ((j : ℕ) → P (f j))
    → P a
    → (j : ℕ) → P (update f i a j)
each P i f a all here j = elim (ℕ_discrete j i) [
  | yes same ↦ subst P (ground arith) here
  | no other ↦ subst P (ground arith) (all j)
]

pub rebuild :
    (n o : ℕ) (strict : Bool) (s : State) (i : ℕ) (t : Shared) (h : Heap) (p : Pc)
    → i < n
    → (v : Inv n o strict s) → Effect s.shared (s.procs i).pc t p
    → Moved o strict (length v.live + v.surplus) s.shared (s.procs i).pc (t, h, p)
    → Inv n o strict (go_on s i t h p)
rebuild n o strict s i t h p below v e m = record {
  live = m.live;
  surplus = m.surplus;
  holds = m.holds;
  lock = omega (arith, v.lock, e.lock, total-go_on locked n i s t h p below);
  tokens = omega (arith, v.tokens, e.tokens, total-go_on in_flight n i s t h p below);
  supply = omega (
    arith,
    v.supply,
    m.supply,
    total-go_on taken n i s t h p below,
    total-go_on due n i s t h p below,
  );
  exact = m.exact;
  mapped = each (λ q. q.ijq.addr ≡ o) i s.procs _ v.mapped (v.mapped i);
  sized = each (λ q. IsSizedHeap q.heap) i s.procs _ v.sized m.sized;
  ready = each (λ q. IsReady strict q.heap q.pc) i s.procs _ v.ready m.ready;
}

pub balanced : (p : Pc) → taken p + due p ≤ in_flight p
balanced (rest a) = omega arith
balanced (dequeuing p) = ground arith
balanced (enqueuing p) = ground arith
balanced (looking p) = omega arith

-- A process that is about to add a job finds room.
pub room :
    (n o : ℕ) (strict : Bool) (s : State) (i : ℕ)
    → i < n
    → (v : Inv n o strict s) → taken (s.procs i).pc + due (s.procs i).pc < in_flight (s.procs i).pc
    → length v.live < 128
room n o strict s i below v busy = omega (
  arith,
  v.tokens,
  v.supply,
  sums-lt (λ (q : Process). taken q.pc) (λ q. due q.pc) (λ q. in_flight q.pc) (λ q. balanced q.pc) n
      i s.procs below busy,
)

-- One step of a process at `p`, seen alone.
step-both :
    (o : ℕ) (strict : Bool) (live : List Job) (surplus : ℕ) (s : Shared) (h : Heap)
    → Before o strict live surplus s h
    → (w : Wait) (i : Ipc) (p : Pc) (t : Shared) (h' : Heap) (p' : Pc) → i.addr ≡ o
    → taken p ≤ length live + surplus
    → (taken p + due p < in_flight p → length live < 128)
    → IsReady strict h p
    → step w i s h p ≡ some (t, h', p')
    → Effect s p t p' × Moved o strict (length live + surplus) s p (t, h', p')
unfolding step
step-both o strict live surplus s h b w i (rest a) t h' p' at some_job room ready e = cc
step-both o strict live surplus s h b w i (dequeuing p) t h' p' at some_job room ready e = (
  dequeue_step-Effect w i s t h h' p p' e,
  dequeue_step-Moved o strict live surplus s h b w i p _ at some_job ready e,
)
step-both o strict live surplus s h b w i (enqueuing p) t h' p' at some_job room ready e = (
  enqueue_step-Effect w i s t h h' p p' e,
  enqueue_step-Moved o strict live surplus s h b w i p _ at room ready e,
)
step-both o strict live surplus s h b w i (looking p) t h' p' at some_job room ready e =
    (look_step-Effect w i s t h h' p p' e, look_step-Moved o strict live surplus s h b w i p _ at e)

-- At its start a call has taken and owes nothing.
entry-weights :
    (b : Bool) (c : Call)
    → (locked (entry b c) ≡ 0)
      × (in_flight (entry b c) ≡ 0)
      × (taken (entry b c) ≡ 0)
      × (due (entry b c) ≡ 0)
unfolding entry
entry-weights false (dequeue dst) = (refl, refl, refl, refl)
entry-weights false (enqueue job) = (refl, refl, refl, refl)
entry-weights false (look l) = (refl, refl, refl, refl)
entry-weights true (dequeue dst) = (refl, refl, refl, refl)
entry-weights true (enqueue job) = (refl, refl, refl, refl)
entry-weights true (look l) = (refl, refl, refl, refl)

entry-IsReady :
    (strict : Bool) (h : Heap) (b : Bool) (c : Call)
    → IsProper strict h c
    → IsReady strict h (entry b c)
unfolding entry
entry-IsReady strict h false (dequeue dst) proper = tt
entry-IsReady strict h false (enqueue job) proper = tt
entry-IsReady strict h false (look l) proper = tt
entry-IsReady strict h true (dequeue dst) proper = proper
entry-IsReady strict h true (enqueue job) proper = proper
entry-IsReady strict h true (look l) proper = tt

entry-Effect :
    (s : Shared) (b : Bool) (c : Call) (p : Pc) (a : Answer) → p ≡ rest a → Effect s p s (entry b c)
entry-Effect s b c p a e =
    let (l, f, t, d) = entry-weights b c in
    let idle : (locked p ≡ 0) × (in_flight p ≡ 0) = (ap locked e, ap in_flight e) in
    record { lock = omega (arith, l, idle); tokens = omega (arith, f, idle) }

entry-Moved :
    (o : ℕ) (strict : Bool) (live : List Job) (surplus : ℕ) (s : Shared) (h : Heap)
    → Before o strict live surplus s h
    → (given : Bool) (c : Call) (p : Pc) (a : Answer) → p ≡ rest a
    → IsProper strict h c
    → Moved o strict (length live + surplus) s p (s, h, entry given c)
entry-Moved o strict live surplus s h b given c p a e proper =
    let (l, f, t, d) = entry-weights given c in
    let idle : (taken p ≡ 0) × (due p ≡ 0) = (ap taken e, ap due e) in
    quiet b p s (entry given c) refl (omega (arith, t, d, idle))
      (entry-IsReady strict h given c proper)

pub some_job :
    (n o : ℕ) (strict : Bool) (s : State) (i : ℕ)
    → i < n
    → (v : Inv n o strict s) → taken (s.procs i).pc ≤ length v.live + v.surplus
some_job n o strict s i below v =
    omega (arith, v.supply, weight-le-sum (λ (q : Process). taken q.pc) n i s.procs below)

-- One step of one process keeps the invariant.
pub Step-Inv :
    (n o : ℕ) (strict : Bool) (s u : State)
    → Inv n o strict s
    → Step n strict s u
    → Inv n o strict u
Step-Inv n o strict s _ v (Step.call i b c h a below idle sized proper) =
    rebuild n o strict s i s.shared h (entry b c) below v
      (entry-Effect s.shared b c (s.procs i).pc a idle)
      (entry-Moved o strict v.live v.surplus s.shared h
        (record { holds = v.holds; exact = v.exact; sized = sized }) b c (s.procs i).pc a idle
        proper)
Step-Inv n o strict s _ v (Step.move i w {t} {h} {p} below e) =
    let (f, m) =
      step-both o strict v.live v.surplus s.shared (s.procs i).heap
        (record { holds = v.holds; exact = v.exact; sized = v.sized i }) w (s.procs i).ijq
        (s.procs i).pc t h p (v.mapped i) (some_job n o strict s i below v)
        (room n o strict s i below v) (v.ready i) e in
    rebuild n o strict s i t h p below v f m

-- Every reachable state has the invariant.
pub Reach-Inv :
    (n o : ℕ) (strict : Bool) (s u : State)
    → Inv n o strict s
    → Reach n strict s u
    → Inv n o strict u
Reach-Inv n o strict s _ v Reach.start = v
Reach-Inv n o strict s u v (Reach.later {t} r l) =
    Step-Inv n o strict t u (Reach-Inv n o strict s t v r) l
