-- ===== src/SemJobqueue/Moves/Looking.antt =====
-- The steps of the functions of sem_jobqueue.c that only look.
use csc.Base.{ℕ, suc, ◌+◌, ◌≡◌, refl, sym, ap, subst, Bool, none, some, List, [], ◌∷◌, length}
use mathlib.Core.Option.{some-injective}
use csc.Job.{Job, Ptr, Heap}
use csc.PriJobqueue.{PriJobqueue}
use csc.PriJobqueue.Spec.{pop, pop-Picks}
use csc.PriJobqueue.Inv.{Holds}
use csc.PriJobqueue.Refine.{Picks-IsQueued}
use csc.PriJobqueue.Looks.{Peeked}
use csc.Ipc.{Ipc}
use csc.IpcJobqueue.Laws.{looks_agree}
use csc.SemJobqueue.{Shared, Wait, Look, LookPc, rest, looking, Outcome, look_step, look_work}
use csc.SemJobqueue.Processes.{IsSizedHeap}
use csc.SemJobqueue.Moves.{Before, moves, Moved, waits, Delivers-sized, quiet, here}

Peeked-sized :
    (q : PriJobqueue) (live : List Job) (dst : Ptr) (h : Heap) (r : Ptr) (h' : Heap)
    → Holds q live
    → IsSizedHeap h
    → Peeked (pop live) dst h (r, h')
    → IsSizedHeap h'
unfolding pop
Peeked-sized q [] dst h r h' holds sized seen =
    subst IsSizedHeap (sym (ap (λ (u : Ptr × Heap). u.1) seen)) sized
Peeked-sized q (x ∷ xs) dst h r h' holds sized seen =
    let (m, others, e, p) = pop-Picks x xs in
    Delivers-sized m dst h r h' (Picks-IsQueued (x ∷ xs) m others holds.queued p).labelled.size
      sized (subst (λ u. Peeked u dst h (r, h')) e seen)

module _ (o : ℕ) (strict : Bool) (live : List Job) (surplus : ℕ) (s : Shared) (h : Heap)
    (b : Before o strict live surplus s h) where
  -- What an ipc_jobqueue function that only looks leaves.
  look_work-sized :
      (i : Ipc) (l : Look)
      → i.addr ≡ o
      → let (a, t, h') = look_work i l s.system h in (t.content ≡ s.system.content) × IsSizedHeap h'
  unfolding look_work
  look_work-sized i Look.is_empty at =
      ((looks_agree i live none s.system h (here b i at)).0.1, b.sized)
  look_work-sized i Look.is_full at =
      ((looks_agree i live none s.system h (here b i at)).1.1, b.sized)
  look_work-sized i Look.size at = ((looks_agree i live none s.system h (here b i at)).2.1, b.sized)
  look_work-sized i Look.space at =
      ((looks_agree i live none s.system h (here b i at)).3.1, b.sized)
  look_work-sized i (Look.peek dst) at =
      let (seen, same) = (looks_agree i live dst s.system h (here b i at)).4 in
      (same, Peeked-sized (s.system.content i.addr) live dst h _ _ (here b i at) b.sized seen)

  pub look_step-Moved :
      (w : Wait) (i : Ipc) (p : LookPc) (out : Outcome)
      → i.addr ≡ o
      → look_step w i s h p ≡ some out
      → Moved o strict (length live + surplus) s (looking p) out
  unfolding look_step
  look_step-Moved w i (LookPc.wait_mutex l) out at e =
      waits w s.mutex _ _ out e (quiet b _ s (rest _) refl refl tt)
        (λ v f. quiet b _ (record s { mutex = v }) (looking (LookPc.work l)) refl refl tt)
  look_step-Moved w i (LookPc.work l) out at e =
      let (same, sized') = look_work-sized i l at in
      subst (Moved o strict _ s _) (some-injective _ _ e) (record {
        live = live;
        surplus = surplus;
        holds = subst (λ c. Holds (c o) live) (sym same) b.holds;
        supply = refl;
        exact = b.exact;
        sized = sized';
        ready = tt;
      })
  look_step-Moved w i (LookPc.post_mutex a) out at e =
      moves b _ (record s { mutex = suc s.mutex }) (rest a) e refl refl tt
