-- ===== src/Proc.antt =====
-- proc.h and proc.c: process descriptors, and the delays that simulate work. Time and the random
-- numbers that `random()` returns are in a `Clock`.
pub mod Delay
pub mod New
pub mod Life
mod Tests
use csc.Base.{
  ℕ, zero, suc, ◌+◌, ◌-◌, ◌*◌, ◌/◌, ◌%◌, Bool, true, false, ◌||◌, Option, none, some, List, [], ◌∷◌,
  ltb, leb, if◌then◌else◌, replicate,
}
use csc.Base.Int.{ℤ, pos, negsuc}
use csc.CString.{codes, snprintf_s}
use csc.Job.{max_name_size, is_blank}

-- work_ms_t
pub record WorkMs : Type 0 where
  pub least : ℤ
  pub most : ℤ

-- proctype_t
pub data ProcType : Type 0 where
  bwait_cons_proc bwait_prod_proc sem_cons_proc sem_prod_proc : ProcType

-- struct proc
pub record Proc : Type 0 where
  pub type : ProcType
  pub type_label : List ℕ
  pub name : List ℕ
  pub id : ℤ
  pub jobs : ℤ
  pub is_init : Bool
  pub delay_start : ℤ
  pub delay_exit : ℤ
  pub crit_work : WorkMs
  pub noncrit_work : WorkMs

-- `type < BWAIT_CONS_PROC || type > SEM_PROD_PROC` has no process type.
pub proctype_of : ℤ → Option ProcType
proctype_of (pos zero) = some bwait_cons_proc
proctype_of (pos (suc zero)) = some bwait_prod_proc
proctype_of (pos (suc (suc zero))) = some sem_cons_proc
proctype_of (pos (suc (suc (suc zero)))) = some sem_prod_proc
proctype_of _ = none

unfoldable pub proctype_label : ProcType → List ℕ
proctype_label bwait_cons_proc = codes "bwait_cons"
proctype_label bwait_prod_proc = codes "bwait_prod"
proctype_label sem_cons_proc = codes "sem_cons"
proctype_label sem_prod_proc = codes "sem_prod"

-- `jobs < 1`
abbrev pub no_jobs : ℤ → Bool
no_jobs (pos n) = ltb n 1
no_jobs (negsuc n) = true

-- `name && name[0] ? name : "none"`
pub proc_name : Option (List ℕ) → List ℕ
proc_name none = codes "none"
proc_name (some s) = if is_blank (some s) then codes "none" else s

-- A fresh array of MAX_NAME_SIZE bytes after `snprintf (…, MAX_NAME_SIZE, "%s", s)`; what it holds
-- behind the terminator is unknown, zeros here.
unfoldable pub name_field : List ℕ → List ℕ
name_field s = snprintf_s (replicate max_name_size 0) max_name_size s

-- The arguments of `proc_new` that it stores as they are.
pub record Settings : Type 0 where
  pub id : ℤ
  pub jobs : ℤ
  pub is_init : Bool
  pub delay_start : ℤ
  pub delay_exit : ℤ
  pub crit_work : WorkMs
  pub noncrit_work : WorkMs

filled : ProcType → Option (List ℕ) → Settings → Proc
filled t name s = record {
  type = t;
  type_label = name_field (proctype_label t);
  name = name_field (proc_name name);
  id = s.id;
  jobs = s.jobs;
  is_init = s.is_init;
  delay_start = s.delay_start;
  delay_exit = s.delay_exit;
  crit_work = s.crit_work;
  noncrit_work = s.noncrit_work;
}

-- proc_new; `granted` says whether `malloc` returns memory.
pub new : ℤ → Option (List ℕ) → Settings → Bool → Option Proc
new type name s granted = elim (proctype_of type) [
  | none ↦ none
  | some t ↦ if no_jobs s.jobs then none else if granted then some (filled t name s) else none
]

-- struct timespec
pub record Timespec : Type 0 where
  pub tv_sec : ℕ
  pub tv_nsec : ℕ

-- The calls of `random()` so far and what they return, and the sleeps so far, the last one first.
pub record Clock : Type 0 where
  pub random : ℕ → ℕ
  pub draws : ℕ
  pub naps : List Timespec

-- delay_ms
pub delay_ms : ℕ → Clock → Clock
delay_ms ms c =
    if ltb ms 1
    then c
    else (let sec = ms / 1000 in
        record c { naps = record { tv_sec = sec; tv_nsec = (ms - sec * 1000) * 1000000 } ∷ c.naps })

-- delay_randms. With a negative bound one of the two tests returns.
pub delay_randms : ℤ → ℤ → Clock → Clock
delay_randms (pos least) (pos most) c =
    if ltb least 1 || leb most least
    then c
    else (let ms = c.random c.draws % (most - least + 1) + least in
        delay_ms ms (record c { draws = c.draws + 1 }))
delay_randms least most c = c

-- do_critical_work
pub do_critical_work : Option Proc → Clock → Clock
do_critical_work none c = c
do_critical_work (some p) c = delay_randms p.crit_work.least p.crit_work.most c

-- do_noncritical_work
pub do_noncritical_work : Option Proc → Clock → Clock
do_noncritical_work none c = c
do_noncritical_work (some p) c = delay_randms p.noncrit_work.least p.noncrit_work.most c
