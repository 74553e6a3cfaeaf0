-- ===== src/Joblog/Quiet.antt =====
-- What the functions of joblog.c leave as it was, on every branch.
use csc.Base.{
  ℕ, ◌≡◌, ◌≢◌, refl, ap, ◌∙◌, ◌&&◌, Bool, true, false, Option, none, some, List, [], ◌∷◌, ◌++◌,
  if◌then◌else◌,
}
use csc.Base.Int.{ℤ}
use csc.CString.{until_nul}
use csc.Job.{Job, Ptr, Heap}
use csc.Job.Text.{job_to_str}
use csc.Proc.{Proc}
use csc.Joblog.{
  new_log_name, remove_log, joblog_delete, joblog_read, write_entry, write_log, joblog_write,
}
use csc.Joblog.System.{
  Disk, Chances, fopen_a, remove_file, append, spoil, with_errno, own_name, free_name, open_stream,
  is_directory,
}
use csc.Joblog.Laws.{store_elsewhere}
use csc.Joblog.Restores.{Restored, joblog_read-disk, joblog_write-Restored, joblog_delete-Restored}

-- `s'` differs from `s` at most in errno and in the log under `name`.
record Touches (name : Option (List ℕ)) (s s' : Disk) : Type 0 where
  out : s'.out ≡ s.out
  others : (n : List ℕ) → some n ≢ name → s'.files n ≡ s.files n

Touches-none : (name : Option (List ℕ)) (s : Disk) → Touches name s s
Touches-none name s = record { out = refl; others = λ n d. refl }

append-Touches : (name t : List ℕ) (s : Disk) → Touches (some name) s (append name t s)
unfolding append
append-Touches name t s = record {
  out = refl;
  others = λ n d. store_elsewhere s.files name n _ (λ e. d (ap some e));
}

Touches-as :
    (name : Option (List ℕ)) (s t t' : Disk)
    → t'.out ≡ t.out
    → t'.files ≡ t.files
    → Touches name s t
    → Touches name s t'
Touches-as name s t t' out files h = record {
  out = out ∙ h.out;
  others = λ n d. ap (λ (f : List ℕ → Option (List ℕ)). f n) files ∙ h.others n d;
}

Touches-if :
    (b : Bool) (name : Option (List ℕ)) (s s₁ s₂ : Disk)
    → Touches name s s₁
    → Touches name s s₂
    → Touches name s (if b then s₁ else s₂)
Touches-if true name s s₁ s₂ h k = h
Touches-if false name s s₁ s₂ h k = k

Touches-trans :
    (name : Option (List ℕ)) (s s₁ s₂ : Disk)
    → Touches name s s₁
    → Touches name s₁ s₂
    → Touches name s s₂
Touches-trans name s s₁ s₂ h k = record {
  out = k.out ∙ h.out;
  others = λ n d. k.others n d ∙ h.others n d;
}

write_entry-Touches :
    (e : ℕ) (name : List ℕ) (str : Option (List ℕ)) (c : Chances) (s : Disk)
    → Touches (some name) s (write_entry e name str c s)
unfolding write_entry
write_entry-Touches e name none c s =
    Touches-as (some name) s s _ refl refl (Touches-none (some name) s)
write_entry-Touches e name (some b) c s =
    let t = append name (until_nul b ++ (10 ∷ [])) s in
    Touches-if c.fprintf (some name) s _ _
      (Touches-as (some name) s t _ refl refl (append-Touches name (until_nul b ++ (10 ∷ [])) s))
      (Touches-as (some name) s s _ refl refl (Touches-none (some name) s))

write_log-Touches :
    (e : ℕ) (name : Option (List ℕ)) (j : Job) (job_str : List ℕ) (c : Chances) (s : Disk)
    → Touches name s (write_log e name j job_str c s)
unfolding write_log
write_log-Touches e none j job_str c s = Touches-as none s s _ refl refl (Touches-none none s)
write_log-Touches e (some name) j job_str c s =
    let opened = free_name (open_stream (append name [] s)) in
    Touches-if (fopen_a c s) (some name) s _ _
      (Touches-trans (some name) s opened _
        (Touches-as (some name) s (append name [] s) opened refl refl (append-Touches name [] s))
        (write_entry-Touches e name (job_to_str (some j) (some job_str) true) c opened))
      (Touches-as (some name) s s _ refl refl (Touches-none (some name) s))

remove_log-Touches :
    (name : Option (List ℕ)) (c : Chances) (s : Disk) → Touches name s (remove_log name c s)
unfolding remove_log remove_file
remove_log-Touches none c s = Touches-none none s
remove_log-Touches (some name) c s =
    let t =
      Touches-if (is_directory s.out && c.remove) (some name) s _ s
        (record {
          out = refl;
          others = λ n d. store_elsewhere s.files name n none (λ e. d (ap some e));
        })
        (Touches-none (some name) s) in
    record { out = t.out; others = t.others }

-- errno and JOBLOG_PATH are as before, and so is every log but that of `proc`; the process owns as
-- many names of logs, and has as many files open, as before.
pub record Quiet (proc : Option Proc) (s s' : Disk) : Type 0 where
  pub restored : Restored s.errno s s'
  pub out : s'.out ≡ s.out
  pub others : (n : List ℕ) → some n ≢ new_log_name proc true → s'.files n ≡ s.files n

-- What touches the log that `asprintf` has named touches the log of the process.
Touches-Quiet :
    (p : Proc) (granted : Bool) (s s' : Disk)
    → Touches (new_log_name (some p) granted) (own_name (new_log_name (some p) granted) s) s'
    → Restored s.errno s s'
    → Quiet (some p) s s'
unfolding new_log_name
Touches-Quiet p true s s' h r = record { restored = r; out = h.out; others = h.others }
Touches-Quiet p false s s' h r = record {
  restored = r;
  out = h.out;
  others = λ n d. h.others n (λ e. cc);
}

Quiet-refl : (proc : Option Proc) (s : Disk) → Quiet proc s s
Quiet-refl proc s = record {
  restored = record { errno = refl; names = refl; streams = refl };
  out = refl;
  others = λ n d. refl;
}

-- What is so of a disk with another errno.
from_spoiled :
    (p : Proc) (c : Chances) (s s' : Disk)
    → Quiet (some p) (spoil c s) (with_errno c.errno s')
    → Restored s.errno s s'
    → Quiet (some p) s s'
from_spoiled p c s s' q r = record { restored = r; out = q.out; others = q.others }

joblog_write-Quiet :
    (p : Proc) (job : Ptr) (h : Heap) (job_str : List ℕ) (c : Chances) (s : Disk)
    → Quiet (some p) s (joblog_write (some p) job h job_str c s)
unfolding joblog_write
joblog_write-Quiet p none h job_str c s = Quiet-refl (some p) s
joblog_write-Quiet p (some j) h job_str c s =
    let name = new_log_name (some p) c.asprintf in
    let r = joblog_write-Restored (some p) (some j) h job_str c s in
    let t = write_log-Touches s.errno name (h.cell j) job_str c (own_name name (spoil c s)) in
    from_spoiled p c s _
      (Touches-Quiet p c.asprintf (spoil c s) _ (record { out = t.out; others = t.others })
        (record { errno = refl; names = r.names; streams = r.streams }))
      r

joblog_delete-Quiet :
    (p : Proc) (c : Chances) (s : Disk) → Quiet (some p) s (joblog_delete (some p) c s)
unfolding joblog_delete
joblog_delete-Quiet p c s =
    let name = new_log_name (some p) c.asprintf in
    let r = joblog_delete-Restored (some p) c s in
    let t = remove_log-Touches name c (own_name name (spoil c s)) in
    from_spoiled p c s _
      (Touches-Quiet p c.asprintf (spoil c s) _ (record { out = t.out; others = t.others })
        (record { errno = refl; names = r.names; streams = r.streams }))
      r

-- For all arguments and whichever calls fail, where a failing `asprintf` leaves NULL:
-- `joblog_read` leaves the disk and errno as they were, and `joblog_write` and `joblog_delete`
-- leave errno, what stands at JOBLOG_PATH, and every log but that of their process as they were;
-- each frees the name of the log that it has made and closes the file that it has opened.
pub joblog-Quiet :
    (proc : Option Proc) (entry_num : ℤ) (job : Ptr) (h : Heap) (job_str : List ℕ) (c : Chances)
    (s : Disk)
    → ((joblog_read proc entry_num job h c s).1 ≡ s)
      × Quiet proc s (joblog_write proc job h job_str c s)
      × Quiet proc s (joblog_delete proc c s)
unfolding joblog_write joblog_delete
joblog-Quiet none n job h job_str c s =
    (joblog_read-disk none n job h c s, Quiet-refl none s, Quiet-refl none s)
joblog-Quiet (some p) n job h job_str c s = (
  joblog_read-disk (some p) n job h c s,
  joblog_write-Quiet p job h job_str c s,
  joblog_delete-Quiet p c s,
)
