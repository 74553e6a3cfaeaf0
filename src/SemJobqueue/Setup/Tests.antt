-- ===== src/SemJobqueue/Setup/Tests.antt =====
-- sem_jobqueue_new at a concrete system.
use csc.Base.{
  length, ◌≡◌, refl, if◌then◌else◌, ◌==◌, Bool, true, false, Option, none, some, [], ◌∷◌, List, ℕ,
  All, get_or,
}
use csc.CString.{codes, strncpy, same_text, printed, snprintf_s}
use csc.ShobjectName.{shobject_name, shobj_name, user_or_anon, label_or_none}
use csc.Job.{unused, is_blank}
use csc.Samples.{job, heap, clock, proc, granted}
use csc.PriJobqueue.{PriJobqueue}
use csc.Proc.{Proc}
use csc.Ipc.{Ipc, System, ipc_name, rename}
use csc.IpcJobqueue
use csc.SemJobqueue.{acquire, interrupt, Look, look, entry}
use csc.SemJobqueue.Alone.{alone, waits}
use csc.SemJobqueue.Setup.Joining.{Offers, using}
use csc.SemJobqueue.Setup.AsLook.{left_shared, outcome_shared, new-looks}
use csc.SemJobqueue.Setup.{
  sem_mutex_label, sem_full_label, sem_empty_label, SemJobqueue, World, Chances, new, delete,
}
use csc.SemJobqueue.Setup.Laws.{IsSetUp, new-IsSetUp}
use csc.SemJobqueue.Setup.Delete.{once_more, new_after_delete}
use csc.SemJobqueue.Processes.{IsSizedHeap}
use csc.SemJobqueue.Keeps.{each}
use csc.SemJobqueue.Safety.{Fresh}
use csc.SemJobqueue.Setup.Start.{shared_of, process_of, Uses, join_all-Fresh}
use csc.SemJobqueue.Setup.Outcomes.{Outcome, NoMutex, new-Outcome}
use csc.SemJobqueue.Setup.JoinAll.{join_all}
use csc.SemJobqueue.Setup.Opening.{AllChances}

abbrev chances : Bool → Chances
chances full = record {
  malloc = true;
  ipc = granted;
  mutex = true;
  full = full;
  empty = true;
  wait = acquire;
}

abbrev world : World
world = record {
  system = record {
    named = λ _. some 5;
    content = λ _. record { buf_size = 0; size = 3; jobs = [] };
    sized = λ _. true;
    next = 6;
    user = some (codes "ada");
    errno = 0;
    clock = clock;
  };
  semaphores = record { known = λ _. none; value = λ _. 7; closes = λ _. 0; fresh = 2 };
}

-- A queue of which the semaphores are open.
abbrev used : SemJobqueue
used = record {
  mutex = some 0;
  full = some 1;
  empty = some 2;
  ijq = record { proc = proc; name = codes "/ipc_jobq"; addr = 5 };
}

new-IsSetUp_example :
    (q : SemJobqueue) × (w : World) × (new (some proc) (chances true) world ≡ some (some q, w))
    × IsSetUp proc world w q
new-IsSetUp_example =
    new-IsSetUp proc (chances true) world refl
      (refl, refl, refl, refl, refl, (refl, refl, refl, refl, refl)) (refl, refl, refl)

new_after_delete_example :
    (v : World) × (delete (some used) world ≡ some v)
    × (v.semaphores.closes ≡ once_more 2 (once_more 1 (once_more 0 world.semaphores.closes)))
    × ((q : SemJobqueue) × (w : World) × (new (some proc) (chances true) v ≡ some (some q, w))
        × IsSetUp proc v w q)
new_after_delete_example =
    new_after_delete proc (chances true) world used 0 1 2 refl
      (refl, refl, refl, refl, refl, (refl, refl, refl, refl, refl)) refl refl refl

abbrev made : Option (Option Ipc × System PriJobqueue)
made = IpcJobqueue.new (some proc) granted world.system

-- The wait is interrupted, and `full` is not opened.
abbrev troubled : Chances
troubled = record (chances false) { wait = interrupt }

world-NoMutex : (r : Option (Option Ipc × System PriJobqueue)) → NoMutex world r
world-NoMutex none = tt
world-NoMutex (some (r, t)) = refl

new-Outcome_example : Outcome troubled world true made true (new (some proc) troubled world)
new-Outcome_example = new-Outcome (some proc) troubled world (world-NoMutex made)

heap_of_labels : IsSizedHeap heap
unfolding strncpy
heap_of_labels = each (λ j. length j.label ≡ 32) 0 (λ _. unused) (job 9 4) (λ _. refl) refl

all_chances : AllChances (chances true)
all_chances = (refl, refl, refl, refl, refl, (refl, refl, refl, refl, refl))

-- One of the processes that are not init.
abbrev other : Proc
other = record proc { is_init = false }

join_all-Fresh_example :
    (q : SemJobqueue) × (qs : List SemJobqueue) × (w : World) × (m : ℕ) × (f : ℕ) × (e : ℕ)
    × (join_all
          ((proc, chances true) ∷ ((other, chances true) ∷ ((other, chances true) ∷ [])))
          world
        ≡ some (q ∷ qs, w))
    × (length qs ≡ 2)
    × All (Uses 6 m f e) (q ∷ qs)
    × Fresh 6
        (record { shared = shared_of w m f e; procs = λ j. process_of (get_or (q ∷ qs) j q) heap })
join_all-Fresh_example =
    join_all-Fresh proc (chances true) ((other, chances true) ∷ ((other, chances true) ∷ [])) world
      (λ _. heap) refl all_chances ((refl, all_chances), ((refl, all_chances), tt))
      (refl, refl, refl) (λ _. heap_of_labels)

abbrev name_of : List ℕ → List ℕ
name_of label = ipc_name (some (codes "ada")) (some label)

-- A queue is set up, and `mutex` is free.
abbrev set_up_world : World
set_up_world = record world {
  semaphores = record {
    known =
        rename
          (rename (rename (λ _. none) (name_of sem_mutex_label) (some 2)) (name_of sem_full_label)
            (some 3))
          (name_of sem_empty_label) (some 4);
    value = λ k. if k == 2 then 1 else (if k == 3 then 0 else 128);
    closes = λ _. 0;
    fresh = 5;
  };
}

set_up_world-Offers : Offers 5 2 3 4 set_up_world
unfolding ipc_name same_text shobject_name shobj_name user_or_anon printed snprintf_s label_or_none
    is_blank
set_up_world-Offers = record { ijq = refl; mutex = refl; full = refl; empty = refl }

new-looks_example :
    let i = (using other (some (codes "ada")) 5 2 3 4).ijq in
    (t : System PriJobqueue) × (IpcJobqueue.new (some other) granted world.system
      ≡ some (some i, t))
    × (left_shared 2 3 4 (new (some other) (chances true) set_up_world)
        ≡ outcome_shared (
            alone
              (waits acquire acquire)
              i
              (record { mutex = 1; full = 0; empty = 128; system = t })
              heap
              (entry true (look Look.space))))
new-looks_example =
    new-looks other (chances true) set_up_world 5 2 3 4 heap refl all_chances set_up_world-Offers
