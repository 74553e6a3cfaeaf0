-- ===== src/SemJobqueue/History/Returns/Steps.antt =====
-- A step of a process, and what it is to return.
use csc.Base.{ℕ, ◌≡◌, refl, sym, ap, subst, ◌∙◌, Bool, true, false, Option, none, some, inl, inr}
use mathlib.Core.Option.{some-injective}
use csc.Job.{Ptr, Heap}
use csc.IpcJobqueue.Laws.{peek-refused}
use csc.PriJobqueue.Trace.{received}
use csc.Ipc.{Ipc}
use csc.IpcJobqueue
use csc.SemJobqueue.{
  Shared, Wait, Look, Call, dequeue, enqueue, look, peek, Answer, pointer, DequeuePc, EnqueuePc,
  LookPc, Pc, rest, dequeuing, enqueuing, looking, Outcome, await, step, dequeue_step, enqueue_step,
  look_step, look_work,
}
use csc.SemJobqueue.Refusal.{refusal, failed_look-refusal}
use csc.SemJobqueue.Moves.{await-cases}
use csc.SemJobqueue.History.{Event, shown, look_event, event}
use csc.SemJobqueue.History.Returns.{newest, Returned, Returns}

unworked :
    (c d : Call) (e : Option Event) (a : Answer) (h : Heap)
    → c ≡ d
    → e ≡ none
    → a ≡ refusal d
    → Returned c e a h
unworked c d e a h same started refused =
    subst (λ x. Returned c x a h) (sym started) (refused ∙ ap refusal (sym same))

abbrev pub ReturnsAs : Call → Option Event → Outcome → Type 0
ReturnsAs c e (s, h, p) = Returns c e h p

returned :
    (c : Call) (e : Option Event) (x y : Outcome)
    → some x ≡ some y
    → ReturnsAs c e x
    → ReturnsAs c e y
returned c e x y same = subst (ReturnsAs c e) (some-injective x y same)

awaited :
    (c : Call) (e : Option Event) (w : Wait) (v : ℕ) (failed : Outcome) (go : ℕ → Outcome)
    (out : Outcome)
    → await w v failed go ≡ some out
    → ReturnsAs c e failed
    → ((u : ℕ) → ReturnsAs c e (go u))
    → ReturnsAs c e out
awaited c e w v failed go out same stopped goes = elim (await-cases w v failed go out same) [
  | inl f ↦ subst (ReturnsAs c e) (sym f) stopped
  | inr (u, _, f) ↦ subst (ReturnsAs c e) (sym f) (goes u)
]

module _ (i : Ipc) (s : Shared) (h : Heap) (c : Call) (x : Option Event) where
  dequeue-Returns :
      (w : Wait) (p : DequeuePc) (out : Outcome)
      → Returns c x h (dequeuing p)
      → dequeue_step w i s h p ≡ some out
      → ReturnsAs c (newest (event i s h (dequeuing p)) x) out
  unfolding dequeue_step event newest refusal
  dequeue-Returns w (DequeuePc.wait_full dst) out (e, start) same =
      awaited c x w s.full _ _ out same (unworked c (dequeue dst) x _ h e start refl)
        (λ u. (e, start))
  dequeue-Returns w (DequeuePc.wait_mutex dst) out (e, start) same =
      awaited c x w s.mutex _ _ out same (dst, e, start) (λ u. (e, start))
  dequeue-Returns w DequeuePc.undo out (dst, e, start) same =
      returned c x _ out same (unworked c (dequeue dst) x _ h e start refl)
  dequeue-Returns w (DequeuePc.work dst) out (e, start) same =
      returned c (newest (event i s h (dequeuing (DequeuePc.work dst))) x) _ out same
        (dst, e, (IpcJobqueue.dequeue (some i) dst s.system h).0, refl, refl)
  dequeue-Returns w (DequeuePc.post_mutex r) out v same = returned c x _ out same v
  dequeue-Returns w (DequeuePc.post_empty r) out v same = returned c x _ out same v

  enqueue-Returns :
      (w : Wait) (p : EnqueuePc) (out : Outcome)
      → Returns c x h (enqueuing p)
      → enqueue_step w i s h p ≡ some out
      → ReturnsAs c (newest (event i s h (enqueuing p)) x) out
  unfolding enqueue_step event newest refusal
  enqueue-Returns w (EnqueuePc.wait_empty job) out (e, start) same =
      awaited c x w s.empty _ _ out same (unworked c (enqueue job) x _ h e start refl)
        (λ u. (e, start))
  enqueue-Returns w (EnqueuePc.wait_mutex job) out (e, start) same =
      awaited c x w s.mutex _ _ out same (job, e, start) (λ u. (e, start))
  enqueue-Returns w EnqueuePc.undo out (job, e, start) same =
      returned c x _ out same (unworked c (enqueue job) x _ h e start refl)
  enqueue-Returns w (EnqueuePc.work none) out (e, start) same =
      returned c x _ out same (unworked c (enqueue none) x _ h e start refl)
  enqueue-Returns w (EnqueuePc.work (some p)) out (e, start) same =
      returned c (newest (event i s h (enqueuing (EnqueuePc.work (some p)))) x) _ out same
        (p, e, refl, refl)
  enqueue-Returns w EnqueuePc.post_mutex out v same = returned c x _ out same v
  enqueue-Returns w EnqueuePc.post_full out v same = returned c x _ out same v

  -- A peek to new memory that `malloc` refuses shows nothing.
  peek-Returns :
      (refused : Bool) (r : Ptr) (h' : Heap)
      → h.refuse h.next ≡ refused
      → c ≡ look (peek none)
      → x ≡ none
      → (h.refuse h.next ≡ true → r ≡ none)
      → Returned c (newest (shown refused (received r h')) x) (pointer r) h'
  unfolding newest shown refusal
  peek-Returns true r h' e same start null =
      unworked c (look (peek none)) x (pointer r) h' same start (ap pointer (null e))
  peek-Returns false r h' e same start null = (none, same, r, refl, refl)

  work-Returns :
      (l : Look)
      → c ≡ look l
      → x ≡ none
      → let (a, t, h') = look_work i l s.system h in Returned c (newest (look_event i s h l) x) a h'
  unfolding look_work look_event newest
  work-Returns Look.is_empty e start = (e, refl)
  work-Returns Look.is_full e start = (e, refl)
  work-Returns Look.size e start = (e, refl)
  work-Returns Look.space e start = (e, refl)
  work-Returns (Look.peek none) e start =
      let out = IpcJobqueue.peek (some i) none s.system h in
      peek-Returns (h.refuse h.next) out.0 out.2 refl e start (peek-refused i s.system h)
  work-Returns (Look.peek (some d)) e start = (some d, e, _, refl, refl)

  looking-Returns :
      (w : Wait) (p : LookPc) (out : Outcome)
      → Returns c x h (looking p)
      → look_step w i s h p ≡ some out
      → ReturnsAs c (newest (event i s h (looking p)) x) out
  unfolding look_step event newest
  looking-Returns w (LookPc.wait_mutex l) out (e, start) same =
      awaited c x w s.mutex _ _ out same (unworked c (look l) x _ h e start (failed_look-refusal l))
        (λ u. (e, start))
  looking-Returns w (LookPc.work l) out (e, start) same =
      returned c _ _ out same (work-Returns l e start)
  looking-Returns w (LookPc.post_mutex a) out v same = returned c x _ out same v

  pub step-Returns :
      (w : Wait) (p : Pc) (out : Outcome)
      → Returns c x h p
      → step w i s h p ≡ some out
      → ReturnsAs c (newest (event i s h p) x) out
  unfolding step
  step-Returns w (rest a) out v same = cc
  step-Returns w (dequeuing p) out v same = dequeue-Returns w p out v same
  step-Returns w (enqueuing p) out v same = enqueue-Returns w p out v same
  step-Returns w (looking p) out v same = looking-Returns w p out v same
