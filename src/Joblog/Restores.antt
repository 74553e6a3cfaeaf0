-- ===== src/Joblog/Restores.antt =====
-- Every way out of the functions of joblog.c restores errno, frees the name of the log and closes
-- the file.
use csc.Base.{ℕ, ◌≡◌, refl, Bool, true, false, Option, none, some, List, [], if◌then◌else◌, arith}
use csc.Base.Int.{ℤ, pos, negsuc}
use csc.Job.{Job, Ptr, Heap}
use csc.Job.Text.{job_to_str}
use csc.Proc.{Proc}
use csc.Joblog.{
  new_log_name, joblog_read, read_log, read_file, read_at, read_line, seek, remove_log,
  joblog_delete, write_entry, write_log, joblog_write,
}
use csc.Joblog.System.{
  Disk, Chances, spoil, with_errno, own_name, free_name, open_stream, fclose, fopen_r, fopen_a,
  append, remove_file,
}

pub own_name-same :
    (name : Option (List ℕ)) (s : Disk)
    → ((own_name name s).out ≡ s.out) × ((own_name name s).files ≡ s.files)
own_name-same none s = (refl, refl)
own_name-same (some name) s = (refl, refl)

read_line-disk :
    (e : ℕ) (text : Option (List ℕ)) (job : Ptr) (h : Heap) (s : Disk)
    → (read_line e text job h s).1 ≡ with_errno e (fclose s)
unfolding read_line
read_line-disk e none job h s = refl
read_line-disk e (some text) job h s = refl

read_at-disk :
    (e : ℕ) (offset : Option ℕ) (t : List ℕ) (job : Ptr) (h : Heap) (c : Chances) (s : Disk)
    → (read_at e offset t job h c s).1 ≡ with_errno e (fclose s)
unfolding read_at
read_at-disk e none t job h c s = refl
read_at-disk e (some offset) t job h c s = read_line-disk e _ job h s

read_file-disk :
    (e : ℕ) (file : Option (List ℕ)) (n : ℕ) (job : Ptr) (h : Heap) (c : Chances) (s : Disk)
    → (read_file e file n job h c s).1 ≡ with_errno e s
unfolding read_file
read_file-disk e none n job h c s = refl
read_file-disk e (some t) n job h c s = read_at-disk e (seek n c) t job h c (open_stream s)

read_log-disk :
    (e : ℕ) (name : Option (List ℕ)) (n : ℕ) (job : Ptr) (h : Heap) (c : Chances) (s : Disk)
    → (read_log e name n job h c (own_name name s)).1 ≡ with_errno e s
unfolding read_log
read_log-disk e none n job h c s = refl
read_log-disk e (some name) n job h c s =
    read_file-disk e (fopen_r name c (own_name (some name) s)) n job h c s

pub joblog_read-disk :
    (proc : Option Proc) (entry_num : ℤ) (job : Ptr) (h : Heap) (c : Chances) (s : Disk)
    → (joblog_read proc entry_num job h c s).1 ≡ s
unfolding joblog_read
joblog_read-disk none n job h c s = refl
joblog_read-disk (some p) (negsuc n) job h c s = refl
joblog_read-disk (some p) (pos n) job h c s =
    read_log-disk s.errno (new_log_name (some p) c.asprintf) n job h c (spoil c s)

-- errno is `e`, and as many names are owned and files open as in `s`.
pub record Restored (e : ℕ) (s s' : Disk) : Type 0 where
  pub errno : s'.errno ≡ e
  pub names : s'.names ≡ s.names
  pub streams : s'.streams ≡ s.streams

Restored-if :
    (b : Bool) (e : ℕ) (s t u : Disk)
    → Restored e s t
    → Restored e s u
    → Restored e s (if b then t else u)
Restored-if true e s t u v w = v
Restored-if false e s t u v w = w

write_entry-Restored :
    (e : ℕ) (name : List ℕ) (str : Option (List ℕ)) (c : Chances) (s : Disk)
    → Restored e (fclose s) (write_entry e name str c s)
unfolding write_entry append
write_entry-Restored e name none c s = record { errno = refl; names = refl; streams = refl }
write_entry-Restored e name (some b) c s =
    Restored-if c.fprintf e (fclose s) _ _ (record { errno = refl; names = refl; streams = refl })
      (record { errno = refl; names = refl; streams = refl })

write_log-Restored :
    (e : ℕ) (name : Option (List ℕ)) (j : Job) (job_str : List ℕ) (c : Chances) (s : Disk)
    → Restored e s (write_log e name j job_str c (own_name name s))
unfolding write_log append
write_log-Restored e none j job_str c s = record { errno = refl; names = refl; streams = refl }
write_log-Restored e (some name) j job_str c s =
    let opened = free_name (open_stream (append name [] (own_name (some name) s))) in
    let str = job_to_str (some j) (some job_str) true in
    let v = write_entry-Restored e name str c opened in
    Restored-if (fopen_a c (own_name (some name) s)) e s _ _
      (record { errno = v.errno; names = v.names; streams = v.streams })
      (record { errno = refl; names = refl; streams = refl })

pub joblog_write-Restored :
    (proc : Option Proc) (job : Ptr) (h : Heap) (job_str : List ℕ) (c : Chances) (s : Disk)
    → Restored s.errno s (joblog_write proc job h job_str c s)
unfolding joblog_write
joblog_write-Restored none job h job_str c s = record { errno = refl; names = refl; streams = refl }
joblog_write-Restored (some p) none h job_str c s = record {
  errno = refl;
  names = refl;
  streams = refl;
}
joblog_write-Restored (some p) (some j) h job_str c s =
    let v =
      write_log-Restored s.errno (new_log_name (some p) c.asprintf) (h.cell j) job_str c
        (spoil c s) in
    record { errno = v.errno; names = v.names; streams = v.streams }

remove_log-names :
    (name : Option (List ℕ)) (c : Chances) (s : Disk)
    → ((remove_log name c (own_name name s)).names ≡ s.names)
      × ((remove_log name c (own_name name s)).streams ≡ s.streams)
unfolding remove_log remove_file
remove_log-names none c s = (refl, refl)
remove_log-names (some name) c s = ground arith

pub joblog_delete-Restored :
    (proc : Option Proc) (c : Chances) (s : Disk) → Restored s.errno s (joblog_delete proc c s)
unfolding joblog_delete
joblog_delete-Restored none c s = record { errno = refl; names = refl; streams = refl }
joblog_delete-Restored (some p) c s =
    let (names, streams) = remove_log-names (new_log_name (some p) c.asprintf) c (spoil c s) in
    record { errno = refl; names = names; streams = streams }
