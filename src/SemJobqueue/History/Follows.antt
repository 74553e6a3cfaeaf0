-- ===== src/SemJobqueue/History/Follows.antt =====
-- A step of a process changes the shared queue as its event changes the abstract queue.
use csc.Base.{
  ℕ, ◌≡◌, refl, sym, ap, subst, ◌∙◌, Bool, true, false, Option, none, some, List, arith, inl, inr,
}
use mathlib.Core.Option.{some-injective}
use csc.Job.{Job, Ptr, Heap}
use csc.PriJobqueue.Spec.{pop, push}
use csc.PriJobqueue.Inv.{Holds}
use csc.PriJobqueue.Trace.{answer, left, serve, saw-answer}
use csc.Ipc.{Ipc}
use csc.IpcJobqueue
use csc.IpcJobqueue.Laws.{dequeue-Dequeued, enqueue-Holds, enqueue-null, looks_agree}
use csc.SemJobqueue.{
  Shared, Wait, Look, Answer, DequeuePc, EnqueuePc, LookPc, Pc, rest, dequeuing, enqueuing, looking,
  Outcome, await, step, dequeue_step, enqueue_step, look_step, look_work,
}
use csc.SemJobqueue.Processes.{IsSizedHeap, CanReceive}
use csc.SemJobqueue.Invariant.{IsReady}
use csc.SemJobqueue.Moves.{await-cases}
use csc.SemJobqueue.History.{Event, shown, look_event, event, apply, tells, Answers}

-- The queue in the object at `o` goes from `live` on as the event says.
abbrev pub Follows : ℕ → List Job → Option Event → Shared → Type 0
Follows o live none t = Holds (t.system.content o) live
Follows o live (some e) t = Answers live e × Holds (t.system.content o) (apply live e)

-- A semaphore operation leaves the queue as it is.
await-content :
    (o : ℕ) (w : Wait) (v : ℕ) (failed : Outcome) (go : ℕ → Outcome) (out : Outcome) (s : Shared)
    (live : List Job)
    → await w v failed go ≡ some out
    → failed.0.system ≡ s.system
    → ((u : ℕ) → (go u).0.system ≡ s.system)
    → Holds (s.system.content o) live
    → Holds (out.0.system.content o) live
await-content o w v failed go out s live e stopped goes holds =
    subst (λ y. Holds (y.content o) live) (sym same) holds
  where
    same : out.0.system ≡ s.system
    same = elim (await-cases w v failed go out e) [
      | inl f ↦ ap (λ (x : Outcome). x.0.system) f ∙ stopped
      | inr (u, _, f) ↦ ap (λ (x : Outcome). x.0.system) f ∙ goes u
    ]

settled :
    (o : ℕ) (live : List Job) (x y : Outcome)
    → some x ≡ some y
    → Holds (x.0.system.content o) live
    → Holds (y.0.system.content o) live
settled o live x y e =
    subst (λ (z : Outcome). Holds (z.0.system.content o) live) (some-injective x y e)

shown-Follows :
    (refused : Bool) (seen : Option Job) (o : ℕ) (live : List Job) (t : Shared)
    → (refused ≡ false → seen ≡ answer (pop live))
    → Holds (t.system.content o) live
    → Follows o live (shown refused seen) t
unfolding shown apply
shown-Follows true seen o live t answered holds = holds
shown-Follows false seen o live t answered holds = (answered refl, holds)

not_refused : (dst : Ptr) (h : Heap) → CanReceive h dst → dst ≡ none → h.refuse h.next ≡ false
not_refused none h given e = given
not_refused (some d) h given e = cc

module _ (o : ℕ) (strict : Bool) (live : List Job) (s : Shared) (h : Heap)
    (holds : Holds (s.system.content o) live) (i : Ipc) (at : i.addr ≡ o) where
  here : Holds (s.system.content i.addr) live
  here = subst (λ a. Holds (s.system.content a) live) (sym at) holds

  look-Follows :
      (l : Look)
      → let (a, t, h') = look_work i l s.system h in
        Follows o live (look_event i s h l) (record s { system = t })
  unfolding look_work look_event tells apply
  look-Follows Look.is_empty =
      let (e, same) = (looks_agree i live none s.system h here).0 in
      (ap Answer.flag e, subst (λ c. Holds (c o) live) (sym same) holds)
  look-Follows Look.is_full =
      let (e, same) = (looks_agree i live none s.system h here).1 in
      (ap Answer.flag e, subst (λ c. Holds (c o) live) (sym same) holds)
  look-Follows Look.size =
      let (e, same) = (looks_agree i live none s.system h here).2 in
      (ap Answer.number e, subst (λ c. Holds (c o) live) (sym same) holds)
  look-Follows Look.space =
      let (e, same) = (looks_agree i live none s.system h here).3 in
      (ap Answer.number (omega (arith, e)), subst (λ c. Holds (c o) live) (sym same) holds)
  look-Follows (Look.peek none) =
      let (seen, same) = (looks_agree i live none s.system h here).4 in
      shown-Follows (h.refuse h.next) _ o live _
        (λ given. saw-answer (pop live) none h _ _ (λ n. given) seen)
        (subst (λ c. Holds (c o) live) (sym same) holds)
  look-Follows (Look.peek (some d)) =
      let (seen, same) = (looks_agree i live (some d) s.system h here).4 in
      (
        saw-answer (pop live) (some d) h _ _ (λ n. cc) seen,
        subst (λ c. Holds (c o) live) (sym same) holds,
      )

  dequeue-Follows :
      (w : Wait) (p : DequeuePc) (t : Shared) (h' : Heap) (p' : Pc)
      → IsReady strict h (dequeuing p)
      → dequeue_step w i s h p ≡ some (t, h', p')
      → Follows o live (event i s h (dequeuing p)) t
  unfolding dequeue_step event apply
  dequeue-Follows w (DequeuePc.wait_full dst) t h' p' ready e =
      await-content o w s.full _ _ _ s live e refl (λ u. refl) holds
  dequeue-Follows w (DequeuePc.wait_mutex dst) t h' p' ready e =
      await-content o w s.mutex _ _ _ s live e refl (λ u. refl) holds
  dequeue-Follows w DequeuePc.undo t h' p' ready e = settled o live _ _ e holds
  dequeue-Follows w (DequeuePc.work dst) t h' p' ready e =
      let out = IpcJobqueue.dequeue (some i) dst s.system h in
      let v =
        serve (s.system.content i.addr) live dst h (pop live)
          (out.0, some (out.1.content i.addr), out.2) (not_refused dst h ready) here
          (dequeue-Dequeued i live dst s.system h here).0 in
      (
        v.seen,
        settled o (left live (pop live)) _ _ e (
            subst (λ q. Holds q (left live (pop live)))
              (sym (some-injective _ _ v.same) ∙ ap out.1.content at) v.holds),
      )
  dequeue-Follows w (DequeuePc.post_mutex r) t h' p' ready e = settled o live _ _ e holds
  dequeue-Follows w (DequeuePc.post_empty r) t h' p' ready e = settled o live _ _ e holds

  enqueue-Follows :
      (w : Wait) (p : EnqueuePc) (t : Shared) (h' : Heap) (p' : Pc)
      → IsSizedHeap h
      → enqueue_step w i s h p ≡ some (t, h', p')
      → Follows o live (event i s h (enqueuing p)) t
  unfolding enqueue_step event apply
  enqueue-Follows w (EnqueuePc.wait_empty job) t h' p' sized e =
      await-content o w s.empty _ _ _ s live e refl (λ u. refl) holds
  enqueue-Follows w (EnqueuePc.wait_mutex job) t h' p' sized e =
      await-content o w s.mutex _ _ _ s live e refl (λ u. refl) holds
  enqueue-Follows w EnqueuePc.undo t h' p' sized e = settled o live _ _ e holds
  enqueue-Follows w (EnqueuePc.work none) t h' p' sized e =
      settled o live _ _ e (subst (λ q. Holds q live) (sym (enqueue-null i o s.system h)) holds)
  enqueue-Follows w (EnqueuePc.work (some p)) t h' p' sized e = (
    tt,
    settled o (push live (h.cell p)) _ _ e (
        subst
          (λ a.
            Holds ((IpcJobqueue.enqueue (some i) (some p) s.system h).content a)
              (push live (h.cell p)))
          at (enqueue-Holds i live p s.system h here (sized p)).0),
  )
  enqueue-Follows w EnqueuePc.post_mutex t h' p' sized e = settled o live _ _ e holds
  enqueue-Follows w EnqueuePc.post_full t h' p' sized e = settled o live _ _ e holds

  looking-Follows :
      (w : Wait) (p : LookPc) (t : Shared) (h' : Heap) (p' : Pc)
      → look_step w i s h p ≡ some (t, h', p')
      → Follows o live (event i s h (looking p)) t
  unfolding look_step event
  looking-Follows w (LookPc.wait_mutex l) t h' p' e =
      await-content o w s.mutex _ _ _ s live e refl (λ u. refl) holds
  looking-Follows w (LookPc.work l) t h' p' e =
      subst (λ (z : Outcome). Follows o live (look_event i s h l) z.0) (some-injective _ _ e)
        (look-Follows l)
  looking-Follows w (LookPc.post_mutex a) t h' p' e = settled o live _ _ e holds

  pub step-Follows :
      (w : Wait) (p : Pc) (t : Shared) (h' : Heap) (p' : Pc)
      → IsSizedHeap h
      → IsReady strict h p
      → step w i s h p ≡ some (t, h', p')
      → Follows o live (event i s h p) t
  unfolding step
  step-Follows w (rest a) t h' p' sized ready e = cc
  step-Follows w (dequeuing p) t h' p' sized ready e = dequeue-Follows w p t h' p' ready e
  step-Follows w (enqueuing p) t h' p' sized ready e = enqueue-Follows w p t h' p' sized e
  step-Follows w (looking p) t h' p' sized ready e = looking-Follows w p t h' p' e
