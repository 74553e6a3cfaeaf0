-- ===== src/SemJobqueue/History/Fifo.antt =====
-- What the processes get from a queue that they fill: each job that was put in once, and those of
-- one priority in the order in which they were put in.
use csc.Base.{
  ℕ, ◌+◌, ◌<◌, ◌≡◌, refl, sym, ap, ◌∙◌, Bool, true, false, Option, none, some, List, [], ◌∷◌, ◌++◌,
  append_assoc, length, arith,
}
use csc.Job.{Job, Heap}
use csc.PriJobqueue.Spec.{pop, push, accepts, pop-Picks}
use csc.PriJobqueue.Inv.{Holds}
use csc.PriJobqueue.Trace.{answer, left}
use csc.PriJobqueue.Drain.{of_priority, of_priority-append, of_priority-Picks}
use csc.Ipc.{Ipc}
use csc.SemJobqueue.{
  Shared, Look, DequeuePc, EnqueuePc, LookPc, Pc, rest, dequeuing, enqueuing, looking,
}
use csc.SemJobqueue.Processes.{State, Step, Reach}
use csc.SemJobqueue.Invariant.{taken, due, in_flight, IsReady}
use csc.SemJobqueue.Moves.Enqueuing.{valid_accepted}
use csc.SemJobqueue.Keeps.{Reach-Inv, room}
use csc.SemJobqueue.Safety.{Fresh, Fresh-Inv}
use csc.SemJobqueue.History.{
  Event, put, got, saw, told, shown, look_event, event, occurred, history, apply, replay, IsSerial,
}
use csc.SemJobqueue.History.Serial.{Reach-Replayed}

-- The jobs that were given to the queue, in order of time.
pub jobs_put : List Event → List Job
jobs_put [] = []
jobs_put (put j ∷ events) = jobs_put events ++ (j ∷ [])
jobs_put (e ∷ events) = jobs_put events

with_job : List Job → Option Job → List Job
with_job jobs none = jobs
with_job jobs (some j) = jobs ++ (j ∷ [])

-- The jobs that were taken out, in order of time.
pub jobs_got : List Event → List Job
jobs_got [] = []
jobs_got (got o ∷ events) = with_job (jobs_got events) o
jobs_got (e ∷ events) = jobs_got events

abbrev Takes : List Job → Event → Type 0
Takes live (put j) = accepts live j ≡ true
Takes live e = Unit

-- The abstract queue had room for every job, and took it.
abbrev TakesAll : List Event → Type 0
TakesAll [] = Unit
TakesAll (e ∷ events) = Takes (replay events) e × TakesAll events

-- It makes no difference whether a job is the last of those before or the first of those after.
of_priority-between :
    (c : ℕ) (jobs : List Job) (m : Job) (others : List Job)
    → of_priority c (jobs ++ (m ∷ [])) ++ of_priority c others
      ≡ of_priority c jobs ++ of_priority c (m ∷ others)
of_priority-between c jobs m others =
    ap (λ xs. xs ++ of_priority c others) (of_priority-append c jobs (m ∷ []))
    ∙ (append_assoc (of_priority c jobs) (of_priority c (m ∷ [])) (of_priority c others)
        ∙ ap (◌++◌ (of_priority c jobs)) (sym (of_priority-append c (m ∷ []) others)))

pop_nil : pop [] ≡ none
unfolding pop
pop_nil = refl

taken_out :
    (c : ℕ) (live jobs : List Job) (o : Option Job)
    → o ≡ answer (pop live)
    → of_priority c (with_job jobs o) ++ of_priority c (left live (pop live))
      ≡ of_priority c jobs ++ of_priority c live
unfolding with_job answer left
taken_out c [] jobs o e = rw (e, pop_nil) refl
taken_out c (x ∷ xs) jobs o e =
    let (m, others, f, p) = pop-Picks x xs in
    let same : o ≡ some m = e ∙ ap answer f in
    rw (same, f)
      (of_priority-between c jobs m others
        ∙ ap (◌++◌ (of_priority c jobs)) (of_priority-Picks c (x ∷ xs) m others p))

-- Within each priority, the jobs that came out and then those in the queue are the jobs that went
-- in.
in_order :
    (c : ℕ) (events : List Event)
    → IsSerial events
    → TakesAll events
    → of_priority c (jobs_got events) ++ of_priority c (replay events)
      ≡ of_priority c (jobs_put events)
unfolding jobs_put jobs_got replay apply push of_priority
in_order c [] serial takes = refl
in_order c (put j ∷ events) serial (accepted, takes) = rw accepted (
    ap (◌++◌ (of_priority c (jobs_got events))) (of_priority-append c (replay events) (j ∷ []))
    ∙ (sym (
          append_assoc (of_priority c (jobs_got events)) (of_priority c (replay events))
            (of_priority c (j ∷ [])))
        ∙ (ap (λ xs. xs ++ of_priority c (j ∷ [])) (in_order c events serial.1 takes)
            ∙ sym (of_priority-append c (jobs_put events) (j ∷ [])))))
in_order c (got o ∷ events) (a, serial) (_, takes) =
    taken_out c (replay events) (jobs_got events) o a ∙ in_order c events serial takes
in_order c (saw o ∷ events) (a, serial) (_, takes) = in_order c events serial takes
in_order c (told l a ∷ events) (_, serial) (_, takes) = in_order c events serial takes

abbrev TakesNext : List Job → Option Event → Type 0
TakesNext live none = Unit
TakesNext live (some e) = Takes live e

shown-TakesNext :
    (live : List Job) (refused : Bool) (seen : Option Job) → TakesNext live (shown refused seen)
unfolding shown
shown-TakesNext live true seen = tt
shown-TakesNext live false seen = tt

-- A valid job that is added where there is room is taken.
event-TakesNext :
    (i : Ipc) (s : Shared) (h : Heap) (p : Pc) (live : List Job)
    → (taken p + due p < in_flight p → length live < 128)
    → IsReady true h p
    → TakesNext live (event i s h p)
unfolding event look_event
event-TakesNext i s h (rest a) live room ready = tt
event-TakesNext i s h (dequeuing (DequeuePc.wait_full dst)) live room ready = tt
event-TakesNext i s h (dequeuing (DequeuePc.wait_mutex dst)) live room ready = tt
event-TakesNext i s h (dequeuing DequeuePc.undo) live room ready = tt
event-TakesNext i s h (dequeuing (DequeuePc.work dst)) live room ready = tt
event-TakesNext i s h (dequeuing (DequeuePc.post_mutex r)) live room ready = tt
event-TakesNext i s h (dequeuing (DequeuePc.post_empty r)) live room ready = tt
event-TakesNext i s h (enqueuing (EnqueuePc.wait_empty job)) live room ready = tt
event-TakesNext i s h (enqueuing (EnqueuePc.wait_mutex job)) live room ready = tt
event-TakesNext i s h (enqueuing EnqueuePc.undo) live room ready = tt
event-TakesNext i s h (enqueuing (EnqueuePc.work none)) live room ready = tt
event-TakesNext i s h (enqueuing (EnqueuePc.work (some p))) live room ready =
    valid_accepted live h p (room (omega arith)) ready
event-TakesNext i s h (enqueuing EnqueuePc.post_mutex) live room ready = tt
event-TakesNext i s h (enqueuing EnqueuePc.post_full) live room ready = tt
event-TakesNext i s h (looking (LookPc.wait_mutex l)) live room ready = tt
event-TakesNext i s h (looking (LookPc.work Look.is_empty)) live room ready = tt
event-TakesNext i s h (looking (LookPc.work Look.is_full)) live room ready = tt
event-TakesNext i s h (looking (LookPc.work Look.size)) live room ready = tt
event-TakesNext i s h (looking (LookPc.work Look.space)) live room ready = tt
event-TakesNext i s h (looking (LookPc.work (Look.peek none))) live room ready =
    shown-TakesNext live (h.refuse h.next) _
event-TakesNext i s h (looking (LookPc.work (Look.peek (some d)))) live room ready = tt
event-TakesNext i s h (looking (LookPc.post_mutex a)) live room ready = tt

occurred-TakesAll :
    (e : Option Event) (events : List Event)
    → TakesAll events
    → TakesNext (replay events) e
    → TakesAll (occurred e events)
unfolding occurred
occurred-TakesAll none events takes next = takes
occurred-TakesAll (some e) events takes next = (next, takes)

Reach-TakesAll : (n o : ℕ) (s u : State) → Fresh o s → (r : Reach n true s u) → TakesAll (history r)
unfolding history
Reach-TakesAll n o s _ fresh Reach.start = tt
Reach-TakesAll n o s _ fresh (Reach.later r (Step.call i b c h a below idle sized proper)) =
    Reach-TakesAll n o s _ fresh r
Reach-TakesAll n o s _ fresh (Reach.later {t} r (Step.move i w below e)) =
    let v = Reach-Inv n o true s t (Fresh-Inv n o true s fresh) r in
    let (_, holds) = Reach-Replayed n o true s t fresh r in
    occurred-TakesAll _ (history r) (Reach-TakesAll n o s t fresh r) (
      event-TakesNext (t.procs i).ijq t.shared (t.procs i).heap (t.procs i).pc (replay (history r))
        (λ busy. omega (arith, room n o true t i below v busy, v.holds.count, holds.count))
        (v.ready i))

-- Processes start from a new queue, enqueue only valid jobs, and have memory, given or allocated,
-- for the job of every dequeue. In every state that they reach, in the middle of calls too, and
-- for each priority: the jobs that all the dequeues have taken out, in order of time, and then
-- the jobs in the queue, are the jobs that all the enqueues have put in, in order of time.
pub queue_is_fifo :
    (n o c : ℕ) (s u : State)
    → Fresh o s
    → (r : Reach n true s u)
    → (live : List Job) × Holds (u.shared.system.content o) live
      × (of_priority c (jobs_got (history r)) ++ of_priority c live
          ≡ of_priority c (jobs_put (history r)))
queue_is_fifo n o c s u fresh r =
    let (serial, holds) = Reach-Replayed n o true s u fresh r in
    (replay (history r), holds, in_order c (history r) serial (Reach-TakesAll n o s u fresh r))
