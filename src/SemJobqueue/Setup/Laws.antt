-- ===== src/SemJobqueue/Setup/Laws.antt =====
-- What sem_jobqueue_new sets up.
use csc.Base.{◌≡◌, refl, sym, ap, subst, ◌∙◌, true, Option, none, some, [], if◌then◌else◌, ◌>>=◌}
use csc.CString.{codes}
use csc.PriJobqueue.{PriJobqueue}
use csc.PriJobqueue.Inv.{Holds}
use csc.Proc.{Proc}
use csc.Ipc.{Ipc, System, ipc_name}
use csc.IpcJobqueue
use csc.IpcJobqueue.Laws.{space_keeps}
use csc.IpcJobqueue.New.{new-NewQueue}
use csc.SemJobqueue.Setup.{
  sem_mutex_label, sem_full_label, sem_empty_label, SemJobqueue, World, Chances, open_mutex, new,
}
use csc.SemJobqueue.Setup.Opening.{
  Unknown, IsOpen, AllChances, space_of_empty, made, after, open_mutex-made, made-IsOpen,
}

-- What sem_jobqueue_new of the init process leaves: a queue that holds no jobs, and the three
-- semaphores under their names with the values 1, 0 and 128.
pub record IsSetUp (p : Proc) (w w' : World) (q : SemJobqueue) : Type 0 where
  pub ijq : q.ijq ≡ record {
    proc = p;
    name = ipc_name w.system.user (some (codes "ipc_jobq"));
    addr = w.system.next;
  }
  pub holds : Holds (w'.system.content w.system.next) []
  pub named :
      w'.system.named (ipc_name w.system.user (some (codes "ipc_jobq"))) ≡ some w.system.next
  pub same_user : w'.system.user ≡ w.system.user
  pub mutex : IsOpen w.system.user sem_mutex_label 1 q.mutex w'.semaphores
  pub full : IsOpen w.system.user sem_full_label 0 q.full w'.semaphores
  pub empty : IsOpen w.system.user sem_empty_label 128 q.empty w'.semaphores

set_up :
    (p : Proc) (c : Chances) (w : World) (r : Option Ipc) (t : System PriJobqueue) (i : Ipc)
    → AllChances c
    → Unknown w.system.user w.semaphores
    → i ≡ record {
      proc = p;
      name = ipc_name w.system.user (some (codes "ipc_jobq"));
      addr = w.system.next;
    }
    → r ≡ some i
    → Holds (t.content w.system.next) []
    → t.user ≡ w.system.user
    → t.named (ipc_name w.system.user (some (codes "ipc_jobq"))) ≡ some w.system.next
    → (q : SemJobqueue) × (w' : World) × (open_mutex c (r, t) w.semaphores ≡ some (some q, w'))
      × IsSetUp p w w' q
unfolding made after
set_up p c w r t i all unknown at e holds user named =
    let there : Holds (t.content i.addr) [] =
      subst (λ a. Holds (t.content a) []) (sym (ap (λ (u : Ipc). u.addr) at)) holds in
    let (m, f, n) = made-IsOpen i t w.semaphores in
    (
      made i t w.semaphores,
      after i t w.semaphores,
      rw e (
          open_mutex-made i t w.semaphores c all
            (subst (λ u. Unknown u w.semaphores) (sym user) unknown) there),
      record {
        ijq = at;
        holds = subst (λ k. Holds (k w.system.next) []) (sym ((space_of_empty i t there).1)) holds;
        named =
            ap (λ f. f (ipc_name w.system.user (some (codes "ipc_jobq")))) (space_keeps i t).0
            ∙ named;
        same_user = (space_keeps i t).2 ∙ user;
        mutex =
            subst
              (λ u.
                IsOpen u sem_mutex_label 1 (made i t w.semaphores).mutex
                  (after i t w.semaphores).semaphores)
              user m;
        full =
            subst
              (λ u.
                IsOpen u sem_full_label 0 (made i t w.semaphores).full
                  (after i t w.semaphores).semaphores)
              user f;
        empty =
            subst
              (λ u.
                IsOpen u sem_empty_label 128 (made i t w.semaphores).empty
                  (after i t w.semaphores).semaphores)
              user n;
      },
    )

pub new-granted :
    (p : Option Proc) (c : Chances) (w : World)
    → c.malloc ≡ true
    → new p c w ≡ (IpcJobqueue.new p c.ipc w.system >>= (λ out. open_mutex c out w.semaphores))
unfolding new
new-granted p c w e =
    ap
      (λ b.
        if b
        then IpcJobqueue.new p c.ipc w.system >>= (λ out. open_mutex c out w.semaphores)
        else some (none, w))
      e

-- For the init process, where no semaphore has one of the three names and no call fails or is
-- interrupted, `sem_jobqueue_new` returns a queue that holds no jobs in a new shared object, with
-- its semaphores under their names: `mutex` at 1, `full` at 0 and `empty` at 128.
pub new-IsSetUp :
    (p : Proc) (c : Chances) (w : World)
    → p.is_init ≡ true
    → AllChances c
    → Unknown w.system.user w.semaphores
    → (q : SemJobqueue) × (w' : World) × (new (some p) c w ≡ some (some q, w')) × IsSetUp p w w' q
new-IsSetUp p c w init all unknown =
    let v = new-NewQueue p c.ipc w.system init all.5 in
    let (q, w', e, done) =
      set_up p c w _ v.after _ all unknown refl refl v.holds v.same_user v.found in
    (
      q,
      w',
      new-granted (some p) c w all.0
          ∙ ap (λ o. o >>= (λ out. open_mutex c out w.semaphores)) v.made
          ∙ e,
      done,
    )
