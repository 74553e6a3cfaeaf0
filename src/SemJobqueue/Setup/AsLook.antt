-- ===== src/SemJobqueue/Setup/AsLook.antt =====
-- sem_jobqueue_new of a process that is not init, next to the calls of the processes that use the
-- queue already: what it does to the shared state.
use csc.Base.{ℕ, zero, suc, ◌≡◌, refl, sym, ap, ap₂, ◌∙◌, true, false, Option, none, some, ◌>>=◌}
use csc.Job.{Heap}
use csc.PriJobqueue.{PriJobqueue}
use csc.Proc.{Proc}
use csc.Ipc.{Ipc, System, ipc_name}
use csc.IpcJobqueue
use csc.IpcJobqueue.New.{new-joins}
use csc.SemJobqueue.{acquire, Wait, Look, look, look_work, Shared, number, rest, entry, Outcome}
use csc.SemJobqueue.Refusal.{refusal}
use csc.SemJobqueue.Alone.{
  alone, waits, Ending, granted, end_as, look_documented, documented, alone-documented,
}
use csc.SemJobqueue.Setup.{
  sem_mutex_label, sem_full_label, sem_empty_label, SemJobqueue, Semaphores, World, Chances,
  sem_wait, take_one, after_wait, check_mutex, open_mutex, new,
}
use csc.SemJobqueue.Setup.Opening.{AllChances}
use csc.SemJobqueue.Setup.Laws.{new-granted}
use csc.SemJobqueue.Setup.Joining.{Offers, using, left, raised, open_mutex-joined, sem_new-known}
use csc.SemJobqueue.Setup.Start.{shared_of}

-- What sem_jobqueue_new leaves of the shared state; `none` where it blocks.
abbrev pub left_shared : ℕ → ℕ → ℕ → Option (Option SemJobqueue × World) → Option Shared
left_shared m f e none = none
left_shared m f e (some (q, w)) = some (shared_of w m f e)

-- What a call leaves of it.
abbrev pub outcome_shared : Option Outcome → Option Shared
outcome_shared none = none
outcome_shared (some (s, h, p)) = some s

sem_wait-blocked :
    (w : Wait) (m : ℕ) (s : Semaphores) → w ≡ acquire → s.value m ≡ 0 → sem_wait w (some m) s ≡ none
unfolding sem_wait take_one
sem_wait-blocked w m s a e = ap (λ x. sem_wait x (some m) s) a ∙ ap (λ x. take_one m x s) e

module _ (c : Chances) (i : Ipc) (m f e : ℕ) (t : System PriJobqueue) (s : Semaphores) (h : Heap)
    (all : AllChances c) (known_mutex : s.known (ipc_name t.user (some sem_mutex_label)) ≡ some m)
    (known_full : s.known (ipc_name t.user (some sem_full_label)) ≡ some f)
    (known_empty : s.known (ipc_name t.user (some sem_empty_label)) ≡ some e) where
  open_mutex-blocked : s.value m ≡ 0 → open_mutex c (some i, t) s ≡ none
  unfolding open_mutex check_mutex after_wait
  open_mutex-blocked taken =
      ap (check_mutex c i t)
        (sem_new-known t.user sem_mutex_label 1 1 m c.mutex s all.1 known_mutex)
      ∙ ap (after_wait c i (some m) 1 t) (sem_wait-blocked c.wait m s all.4 taken)

  open_mutex-looks :
      (x : ℕ)
      → s.value m ≡ x
      → left_shared m f e (open_mutex c (some i, t) s)
        ≡ outcome_shared (
            end_as
              (granted acquire x Ending.completes)
              (
                shared_of (record { system = t; semaphores = s }) m f e,
                h,
                rest (refusal (look Look.space)),
              )
              (
                record {
                  mutex = s.value m;
                  full = s.value f;
                  empty = s.value e;
                  system = (IpcJobqueue.space (some i) t).1;
                },
                h,
                rest (number (IpcJobqueue.space (some i) t).0),
              ))
  unfolding granted end_as left
  open_mutex-looks zero taken = ap (left_shared m f e) (open_mutex-blocked taken)
  open_mutex-looks (suc v) free =
      ap (left_shared m f e)
        (open_mutex-joined c i m f e v t s all known_mutex known_full known_empty free)
      ∙ ap₂
          (λ (a : ℕ) (b : ℕ × ℕ). some (record {
            mutex = a;
            full = b.0;
            empty = b.1;
            system = (IpcJobqueue.space (some i) t).1;
          }))
          (raised m v s m free) (ap₂ (λ x y. (x, y)) (raised m v s f free) (raised m v s e free))

-- Where a queue and its semaphores are there, a process is not init, and no call fails or is
-- interrupted: `sem_jobqueue_new` of that process blocks just where a call of
-- `sem_jobqueue_space` of the same process blocks, and otherwise leaves the shared queue, its
-- clock and the three semaphores as that call leaves them.
pub new-looks :
    (p : Proc) (c : Chances) (w : World) (o m f e : ℕ) (h : Heap)
    → p.is_init ≡ false
    → AllChances c
    → Offers o m f e w
    → let i = (using p w.system.user o m f e).ijq in
      (t : System PriJobqueue) × (IpcJobqueue.new (some p) c.ipc w.system ≡ some (some i, t))
      × (left_shared m f e (new (some p) c w)
          ≡ outcome_shared (
              alone
                (waits acquire acquire)
                i
                (shared_of (record { system = t; semaphores = w.semaphores }) m f e)
                h
                (entry true (look Look.space))))
unfolding documented look_documented look_work
new-looks p c w o m f e h other all offers =
    let (t, r, named, content, user) = new-joins p c.ipc w.system o other all.5 offers.ijq in
    let i = (using p w.system.user o m f e).ijq in
    let s = shared_of (record { system = t; semaphores = w.semaphores }) m f e in
    (
      t,
      r,
      ap (left_shared m f e) (
            new-granted (some p) c w all.0
            ∙ ap (λ x. x >>= (λ out. open_mutex c out w.semaphores)) r)
          ∙ open_mutex-looks c i m f e t w.semaphores h all
              (ap (λ u. w.semaphores.known (ipc_name u (some sem_mutex_label))) user ∙ offers.mutex)
              (ap (λ u. w.semaphores.known (ipc_name u (some sem_full_label))) user ∙ offers.full)
              (ap (λ u. w.semaphores.known (ipc_name u (some sem_empty_label))) user ∙ offers.empty)
              (w.semaphores.value m) refl
          ∙ ap outcome_shared (sym (alone-documented true acquire acquire i s h (look Look.space))),
    )
