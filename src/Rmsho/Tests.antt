-- ===== src/Rmsho/Tests.antt =====
-- Concrete runs of rmsho.c, and the theorem about it at a concrete input.
use csc.Base.{All, ℕ, ◌≡◌, refl, true, none, some, List, [], ◌∷◌}
use csc.CString.{codes, strnlen, strncmp_eq}
use csc.IpcJobqueue.{zeroed}
use csc.Samples.{clock, proc, granted}
use csc.SemJobqueue.{acquire}
use csc.SemJobqueue.Setup.Laws.{IsSetUp}
use csc.SemJobqueue.Setup.{SemJobqueue, World, Chances, new}
use csc.Rmsho.{get_selector, main}
use csc.Rmsho.Recovery.{NoObject, NoSemaphore, shm_labels, sem_labels, runrmsho, new_after_runrmsho}

abbrev world : World
world = record {
  system = record {
    named = λ n. some 1;
    content = λ o. zeroed;
    sized = λ _. true;
    next = 2;
    user = none;
    errno = 0;
    clock = clock;
  };
  semaphores = record { known = λ n. some 0; value = λ k. 1; closes = λ k. 0; fresh = 1 };
}

-- Where no call fails or is interrupted.
abbrev chances : Chances
chances = record {
  malloc = true;
  ipc = granted;
  mutex = true;
  full = true;
  empty = true;
  wait = acquire;
}

abbrev args : List (List ℕ)
args = codes "-s" ∷ codes "sjq.mutex" ∷ []

semaphore_selected : get_selector 3 (codes "./rmsho" ∷ args) ≡ 6
unfolding get_selector strnlen strncmp_eq
semaphore_selected = refl

-- An option that is not known is passed over.
other_option : get_selector 3 (codes "./rmsho" ∷ codes "-sem" ∷ codes "a" ∷ []) ≡ 2
unfolding get_selector strnlen strncmp_eq
other_option = refl

no_label : (main (codes "./rmsho" ∷ []) world).0 ≡ 1
unfolding main
no_label = refl

new_after_runrmsho_example :
    All (NoObject none (runrmsho world)) shm_labels
    × All (NoSemaphore none (runrmsho world)) sem_labels
    × ((q : SemJobqueue) × (w : World) × (new (some proc) chances (runrmsho world)
          ≡ some (some q, w))
        × IsSetUp proc (runrmsho world) w q)
new_after_runrmsho_example =
    new_after_runrmsho proc chances world refl
      (refl, refl, refl, refl, refl, (refl, refl, refl, refl, refl))
