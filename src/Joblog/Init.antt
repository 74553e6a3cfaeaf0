-- ===== src/Joblog/Init.antt =====
-- joblog_init: an empty log, if JOBLOG_PATH is a directory or nothing.
use csc.Base.{
  ℕ, ◌≡◌, ◌≢◌, refl, Bool, true, false, ◌&&◌, none, some, List, [], ◌⊎◌, inl, inr, arith,
  Bool-cases,
}
use csc.Base.Int.{ℤ, pos, negsuc}
use csc.Job.{Ptr, Heap}
use csc.Proc.{Proc}
use csc.Joblog.{
  log_name, new_log_name, remove_log, joblog_delete, make_out, joblog_init, joblog_read,
  joblog_write, read_log, write_log, read_file,
}
use csc.Joblog.System.{
  Disk, Chances, directory, other, is_directory, is_absent, stat_fails, unlinked, unlink, mkdir,
  remove_file, fopen_r, fopen_a, contents, spoil,
}
use csc.Joblog.Laws.{Logged, store_here}

-- joblog_delete leaves an empty log in the directory.
delete-Logged :
    (p : Proc) (c : Chances) (s : Disk)
    → s.out ≡ directory
    → c.asprintf ≡ true
    → c.remove ≡ true
    → Logged (joblog_delete (some p) c s) (log_name p) []
unfolding joblog_delete new_log_name remove_log remove_file is_directory contents
delete-Logged p c s place named removes = record {
  place = ground arith;
  text = ground (arith, store_here s.files (log_name p) none);
  plain = tt;
}

-- The directory is there, or it is made, or `mkdir` fails.
make_out-cases :
    (b : Bool) (c : Chances) (s : Disk)
    → s.out ≢ other
    → ((make_out b c s).0 ≡ pos 0) × ((make_out b c s).1.out ≡ directory)
      ⊎ ((make_out b c s).0 ≡ negsuc 0) × ((c.stat && c.mkdir) ≡ false)
unfolding make_out stat_fails is_absent unlink unlinked mkdir
make_out-cases b c s h = ground arith

-- Where JOBLOG_PATH is a directory or nothing, and the name of the log is made and its removal
-- does not fail, `joblog_init` of the init process returns 0 and the log of the process is empty,
-- or it returns -1 and `stat` or `mkdir` has failed.
pub joblog_init-Logged :
    (p : Proc) (b : Bool) (c : Chances) (s : Disk)
    → p.is_init ≡ true
    → s.out ≢ other
    → c.asprintf ≡ true
    → c.remove ≡ true
    → (((joblog_init (some p) b c s).0 ≡ pos 0)
        × Logged (joblog_init (some p) b c s).1 (log_name p) [])
      ⊎ (((joblog_init (some p) b c s).0 ≡ negsuc 0) × ((c.stat && c.mkdir) ≡ false))
unfolding joblog_init joblog_delete log_name new_log_name
joblog_init-Logged p b c s first usable named removes =
    rw first (elim (make_out-cases b c (spoil c s) usable) [
      | inl (e, place) ↦ inl (e, delete-Logged p c (make_out b c (spoil c s)).1 place named removes)
      | inr failed ↦ inr failed
    ])

-- With a file at JOBLOG_PATH no log is opened.
pub write-other :
    (q : Proc) (job : Ptr) (h : Heap) (job_str : List ℕ) (d : Chances) (s : Disk)
    → s.out ≡ other
    → joblog_write (some q) job h job_str d s ≡ s
unfolding joblog_write write_log new_log_name fopen_a is_directory
write-other q none h job_str d s e = refl
write-other q (some j) h job_str d s e = elim (Bool-cases d.asprintf) [
  | inl named ↦ ground arith
  | inr refused ↦ ground arith
]

pub read-other :
    (q : Proc) (n : ℤ) (dst : Ptr) (h : Heap) (d : Chances) (s : Disk)
    → s.out ≡ other
    → (joblog_read (some q) n dst h d s).0 ≡ (none, h)
unfolding joblog_read read_log read_file new_log_name fopen_r is_directory
read-other q (negsuc n) dst h d s e = refl
read-other q (pos n) dst h d s e = ground arith
