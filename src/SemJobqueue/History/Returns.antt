-- ===== src/SemJobqueue/History/Returns.antt =====
-- What each process has returned from its last call, or will return from the call that it is in,
-- against the event of that call.
pub mod Steps
pub mod Runs
use csc.Base.{
  ℕ, ◌≡◌, refl, sym, ap, subst, ◌∙◌, Bool, true, false, Option, none, some, List, [], ◌∷◌, ◌⊎◌,
  ◌==◌, inl, inr, if◌then◌else◌, Bool-cases, arith,
}
use mathlib.Core.Option.{some-injective}
use csc.Job.{Job, Ptr, Heap, update}
use csc.IpcJobqueue.Laws.{peek-refused}
use csc.PriJobqueue.Trace.{received}
use csc.Ipc.{Ipc}
use csc.IpcJobqueue
use csc.SemJobqueue.{
  Shared, Wait, Look, Call, dequeue, enqueue, look, peek, Answer, nothing, pointer, DequeuePc,
  EnqueuePc, LookPc, Pc, rest, dequeuing, enqueuing, looking, entry, Outcome, await, step,
  dequeue_step, enqueue_step, look_step, look_work,
}
use csc.SemJobqueue.Refusal.{refusal, failed_look-refusal}
use csc.SemJobqueue.Processes.{Process, State, Step, Reach}
use csc.SemJobqueue.Moves.{await-cases}
use csc.SemJobqueue.History.{
  Event, put, got, saw, told, shown, look_event, event, occurred, history,
}

-- The call that a process made last, and the event of that call, if it has come to its work.
pub record Trail : Type 0 where
  pub made : Option Call
  pub event : Option Event

unfoldable pub newest : Option Event → Option Event → Option Event
newest none e = e
newest (some x) e = some x

unfoldable pub trail : {n : ℕ} {strict : Bool} {s u : State} → Reach n strict s u → ℕ → Trail
trail Reach.start = λ j. record { made = none; event = none }
trail (Reach.later r (Step.call i b c h a below idle sized proper)) =
    update (trail r) i (record { made = some c; event = none })
trail (Reach.later {t} r (Step.move i w below e)) = update (trail r) i (record {
  made = (trail r i).made;
  event = newest (event (t.procs i).ijq t.shared (t.procs i).heap (t.procs i).pc) (trail r i).event;
})

-- A call that has returned `a`: without an event it was refused; with one, it returned what the
-- event says, a job of which behind the pointer.
abbrev pub Returned : Call → Option Event → Answer → Heap → Type 0
Returned c none a h = a ≡ refusal c
Returned c (some (put j)) a h = (p : ℕ) × (c ≡ enqueue (some p)) × (h.cell p ≡ j) × (a ≡ nothing)
Returned c (some (got o)) a h =
    (dst : Ptr) × (c ≡ dequeue dst) × (r : Ptr) × (a ≡ pointer r) × (received r h ≡ o)
Returned c (some (saw o)) a h =
    (dst : Ptr) × (c ≡ look (peek dst)) × (r : Ptr) × (a ≡ pointer r) × (received r h ≡ o)
Returned c (some (told l b)) a h = (c ≡ look l) × (a ≡ b)

-- The process is in the call, and has not come to its work; or it is after the work, and has the
-- result; or it has returned.
abbrev pub Returns : Call → Option Event → Heap → Pc → Type 0
Returns c e h (rest a) = Returned c e a h
Returns c e h (dequeuing (DequeuePc.wait_full dst)) = (c ≡ dequeue dst) × (e ≡ none)
Returns c e h (dequeuing (DequeuePc.wait_mutex dst)) = (c ≡ dequeue dst) × (e ≡ none)
Returns c e h (dequeuing DequeuePc.undo) = (dst : Ptr) × (c ≡ dequeue dst) × (e ≡ none)
Returns c e h (dequeuing (DequeuePc.work dst)) = (c ≡ dequeue dst) × (e ≡ none)
Returns c e h (dequeuing (DequeuePc.post_mutex r)) = Returned c e (pointer r) h
Returns c e h (dequeuing (DequeuePc.post_empty r)) = Returned c e (pointer r) h
Returns c e h (enqueuing (EnqueuePc.wait_empty job)) = (c ≡ enqueue job) × (e ≡ none)
Returns c e h (enqueuing (EnqueuePc.wait_mutex job)) = (c ≡ enqueue job) × (e ≡ none)
Returns c e h (enqueuing EnqueuePc.undo) = (job : Ptr) × (c ≡ enqueue job) × (e ≡ none)
Returns c e h (enqueuing (EnqueuePc.work job)) = (c ≡ enqueue job) × (e ≡ none)
Returns c e h (enqueuing EnqueuePc.post_mutex) = Returned c e nothing h
Returns c e h (enqueuing EnqueuePc.post_full) = Returned c e nothing h
Returns c e h (looking (LookPc.wait_mutex l)) = (c ≡ look l) × (e ≡ none)
Returns c e h (looking (LookPc.work l)) = (c ≡ look l) × (e ≡ none)
Returns c e h (looking (LookPc.post_mutex a)) = Returned c e a h

-- A process that has not made a call is between two calls.
abbrev pub ReturnsOf : Option Call → Option Event → Process → Type 0
ReturnsOf none e p = (a : Answer) × (p.pc ≡ rest a)
ReturnsOf (some c) e p = Returns c e p.heap p.pc

abbrev pub Agreed : Trail → Process → Type 0
Agreed t p = ReturnsOf t.made t.event p

-- The event, if there is one, stands in the history.
abbrev pub Stands : Option Event → List Event → Type 0
Stands none events = Unit
Stands (some e) [] = ⊥
Stands (some e) (x ∷ events) = (e ≡ x) ⊎ Stands (some e) events
