-- ===== src/SemJobqueue/History/Serial.antt =====
-- A run of the processes is answered as the abstract queue of one client answers.
use csc.Base.{ℕ, ◌+◌, ◌≤◌, Bool, Option, none, some, List, arith}
use csc.PriJobqueue.{job_buffer_size}
use csc.PriJobqueue.Inv.{Holds}
use csc.SemJobqueue.{Shared}
use csc.SemJobqueue.Processes.{State, Step, Reach}
use csc.SemJobqueue.Keeps.{Reach-Inv}
use csc.SemJobqueue.Safety.{Fresh, Fresh-Inv}
use csc.SemJobqueue.History.{Event, occurred, history, replay, IsSerial}
use csc.SemJobqueue.History.Returns.{Agreed, Stands, trail}
use csc.SemJobqueue.History.Returns.Runs.{Reach-Agreed, Reach-Stands}
use csc.SemJobqueue.History.Follows.{Follows, step-Follows}

-- The history is serial, and the shared queue holds what it leaves.
abbrev pub Replayed : ℕ → List Event → Shared → Type 0
Replayed o events t = IsSerial events × Holds (t.system.content o) (replay events)

occurred-Replayed :
    (o : ℕ) (e : Option Event) (events : List Event) (t : Shared)
    → IsSerial events
    → Follows o (replay events) e t
    → Replayed o (occurred e events) t
unfolding occurred replay
occurred-Replayed o none events t serial f = (serial, f)
occurred-Replayed o (some e) events t serial (a, holds) = ((a, serial), holds)

pub Reach-Replayed :
    (n o : ℕ) (strict : Bool) (s u : State)
    → Fresh o s
    → (r : Reach n strict s u) → Replayed o (history r) u.shared
unfolding history replay
Reach-Replayed n o strict s _ fresh Reach.start = (tt, fresh.holds)
Reach-Replayed n o strict s _ fresh (Reach.later r (Step.call i b c h a below idle sized proper)) =
    Reach-Replayed n o strict s _ fresh r
Reach-Replayed n o strict s _ fresh (Reach.later {t} r (Step.move i w below e)) =
    let (serial, holds) = Reach-Replayed n o strict s t fresh r in
    let v = Reach-Inv n o strict s t (Fresh-Inv n o strict s fresh) r in
    occurred-Replayed o _ (history r) _ serial (
      step-Follows o strict (replay (history r)) t.shared (t.procs i).heap holds (t.procs i).ijq
        (v.mapped i) w (t.procs i).pc _ _ _ (v.sized i) (v.ready i) e)

-- Processes start from a new queue, and there is memory, given or allocated, for the job of every
-- dequeue. In every state that they reach, in the middle of calls too, by any interleaving of
-- their steps and with any waits interrupted: the calls of the ipc_jobqueue functions, in order
-- of time, were answered as the abstract queue of one client answers; the shared queue holds the
-- jobs that this history leaves; every process whose last call came to its ipc_jobqueue function
-- has returned, or is about to return, the answer that stands in the history, with that job
-- behind the pointer; a last call that ended without it (on NULL, after an interrupted wait, of
-- an enqueue of NULL, or of a peek that `malloc` refused) has returned NULL, true or 0; `mutex`
-- is at most 1, and `full` and `empty` together are at most the size of the queue.
pub history-IsSerial :
    (n o : ℕ) (strict : Bool) (s u : State)
    → Fresh o s
    → (r : Reach n strict s u)
    → IsSerial (history r)
      × Holds (u.shared.system.content o) (replay (history r))
      × ((j : ℕ) → Agreed (trail r j) (u.procs j) × Stands (trail r j).event (history r))
      × (u.shared.mutex ≤ 1)
      × (u.shared.full + u.shared.empty ≤ job_buffer_size)
history-IsSerial n o strict s u fresh r =
    let (serial, holds) = Reach-Replayed n o strict s u fresh r in
    let v = Reach-Inv n o strict s u (Fresh-Inv n o strict s fresh) r in
    (
      serial,
      holds,
      λ j. (Reach-Agreed n strict s u fresh.idle r j, Reach-Stands n strict s u r j),
      omega (arith, v.lock),
      omega (arith, v.tokens),
    )
