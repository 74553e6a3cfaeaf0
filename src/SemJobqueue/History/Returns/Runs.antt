-- ===== src/SemJobqueue/History/Returns/Runs.antt =====
-- In a run every process returns what stands in the history.
use csc.Base.{
  ℕ, ◌≡◌, refl, sym, ap, ◌∙◌, Bool, true, false, Option, none, some, List, ◌==◌, inl, inr,
  Bool-cases,
}
use csc.Job.{Heap, update}
use csc.SemJobqueue.{Shared, Wait, Call, dequeue, enqueue, look, nothing, Pc, rest, entry, step}
use csc.SemJobqueue.Refusal.{refusal, failed_look-refusal}
use csc.SemJobqueue.Processes.{Process, State, Step, Reach}
use csc.SemJobqueue.History.{Event, event, occurred, history}
use csc.SemJobqueue.History.Returns.{Trail, newest, trail, Returns, ReturnsOf, Agreed, Stands}
use csc.SemJobqueue.History.Returns.Steps.{step-Returns}

entry-Returns : (given : Bool) (c : Call) (h : Heap) → Returns c none h (entry given c)
unfolding entry refusal
entry-Returns false (dequeue dst) h = refl
entry-Returns false (enqueue job) h = refl
entry-Returns false (look l) h = failed_look-refusal l
entry-Returns true (dequeue dst) h = (refl, refl)
entry-Returns true (enqueue job) h = (refl, refl)
entry-Returns true (look l) h = (refl, refl)

moved-Agreed :
    (made : Option Call) (x : Option Event) (p : Process) (w : Wait) (s : Shared) (t : Shared)
    (h : Heap) (q : Pc)
    → ReturnsOf made x p
    → step w p.ijq s p.heap p.pc ≡ some (t, h, q)
    → ReturnsOf made
        (newest (event p.ijq s p.heap p.pc) x)
        (record { ijq = p.ijq; heap = h; pc = q })
unfolding step
moved-Agreed none x p w s t h q (a, idle) same = cc (sym (ap (step w p.ijq s p.heap) idle) ∙ same)
moved-Agreed (some c) x p w s t h q v same = step-Returns p.ijq s p.heap c x w p.pc (t, h, q) v same

-- What process `i` has and knows is changed, and of the others nothing.
updated-Agreed :
    (i j : ℕ) (trails : ℕ → Trail) (procs : ℕ → Process) (t : Trail) (p : Process)
    → Agreed t p
    → Agreed (trails j) (procs j)
    → Agreed (update trails i t j) (update procs i p j)
updated-Agreed i j trails procs t p here there = elim (Bool-cases (i == j)) [
  | inl e ↦ rw e here
  | inr e ↦ rw e there
]

pub Reach-Agreed :
    (n : ℕ) (strict : Bool) (s u : State)
    → ((j : ℕ) → (s.procs j).pc ≡ rest nothing)
    → (r : Reach n strict s u) → (j : ℕ) → Agreed (trail r j) (u.procs j)
unfolding trail
Reach-Agreed n strict s _ idle Reach.start j = (nothing, idle j)
Reach-Agreed n strict s _ idle (Reach.later {t} r (Step.call i b c h a below resting sized proper))
      j =
    updated-Agreed i j (trail r) t.procs _ _ (entry-Returns b c h)
      (Reach-Agreed n strict s t idle r j)
Reach-Agreed n strict s _ idle (Reach.later {t} r (Step.move i w below e)) j =
    updated-Agreed i j (trail r) t.procs _ _
      (moved-Agreed (trail r i).made (trail r i).event (t.procs i) w t.shared _ _ _
        (Reach-Agreed n strict s t idle r i) e)
      (Reach-Agreed n strict s t idle r j)

occurred-Stands :
    (x e : Option Event) (events : List Event) → Stands e events → Stands e (occurred x events)
unfolding occurred
occurred-Stands none e events v = v
occurred-Stands (some x) none events v = tt
occurred-Stands (some x) (some e) events v = inr v

newest-Stands :
    (x e : Option Event) (events : List Event)
    → Stands e events
    → Stands (newest x e) (occurred x events)
unfolding newest occurred
newest-Stands none e events v = v
newest-Stands (some x) e events v = inl refl

updated-Stands :
    (i j : ℕ) (trails : ℕ → Trail) (t : Trail) (events : List Event)
    → Stands t.event events
    → Stands (trails j).event events
    → Stands (update trails i t j).event events
updated-Stands i j trails t events here there = elim (Bool-cases (i == j)) [
  | inl e ↦ rw e here
  | inr e ↦ rw e there
]

pub Reach-Stands :
    (n : ℕ) (strict : Bool) (s u : State) (r : Reach n strict s u) (j : ℕ)
    → Stands (trail r j).event (history r)
unfolding trail history
Reach-Stands n strict s _ Reach.start j = tt
Reach-Stands n strict s _ (Reach.later {t} r (Step.call i b c h a below resting sized proper)) j =
    updated-Stands i j (trail r) _ (history r) tt (Reach-Stands n strict s t r j)
Reach-Stands n strict s _ (Reach.later {t} r (Step.move i w below e)) j =
    let x = event (t.procs i).ijq t.shared (t.procs i).heap (t.procs i).pc in
    updated-Stands i j (trail r) _ (occurred x (history r))
      (newest-Stands x (trail r i).event (history r) (Reach-Stands n strict s t r i))
      (occurred-Stands x (trail r j).event (history r) (Reach-Stands n strict s t r j))
