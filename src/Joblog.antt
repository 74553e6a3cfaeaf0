-- ===== src/Joblog.antt =====
-- joblog.h and joblog.c: the log of the jobs that a process has handled, a text file in the
-- directory JOBLOG_PATH.
pub mod System
pub mod Laws
mod Restores
pub mod Write
pub mod RoundTrip
pub mod Names
mod Tests
pub mod Init
mod Making
mod Removing
pub mod Outcomes
pub mod Harmless
pub mod Quiet
pub mod Read
use csc.Base.{
  ℕ, zero, suc, ◌+◌, ◌-◌, ◌*◌, ◌^◌, ◌%◌, Bool, true, false, not, ◌&&◌, Option, none, some, List, [],
  ◌∷◌, ◌++◌, ltb, drop, if◌then◌else◌,
}
use csc.Base.Int.{ℤ, pos, negsuc}
use csc.CString.{codes, printed, until_nul}
use csc.CString.Format.{print_signed}
use csc.Job.{Job, Ptr, Heap}
use csc.Job.Text.{job_str_size, job_to_str, str_to_job}
use csc.Proc.{Proc}
use csc.Ipc.{einval}
use csc.Joblog.System.{
  Disk, Chances, spoil, with_errno, own_name, free_name, open_stream, fclose, stat_fails, unlink,
  mkdir, remove_file, fopen_r, fopen_a, append, fgets,
}

-- JOBLOG_PATH
abbrev pub joblog_path : List ℕ
joblog_path = codes "./out"

-- "%s/%.31s%07d.txt"
unfoldable pub log_name : Proc → List ℕ
log_name p = joblog_path ++ (b'/' ∷ (printed 31 p.type_label ++ print_signed 7 p.id (codes ".txt")))

-- new_log_name. Its result is not looked at where `asprintf` fails: the pointer is undefined then,
-- and taken to be NULL here.
unfoldable pub new_log_name : Option Proc → Bool → Option (List ℕ)
new_log_name none granted = none
new_log_name (some p) granted = if granted then some (log_name p) else none

unfoldable pub remove_log : Option (List ℕ) → Chances → Disk → Disk
remove_log none c s = s
remove_log (some name) c s = free_name (remove_file name c s)

-- joblog_delete
unfoldable pub joblog_delete : Option Proc → Chances → Disk → Disk
joblog_delete none c s = s
joblog_delete (some p) c s =
    let log_name = new_log_name (some p) c.asprintf in
    with_errno s.errno (remove_log log_name c (own_name log_name (spoil c s)))

-- The file at JOBLOG_PATH is looked for. `sb` is not set where `stat` fails: `looks_like_directory`
-- says what its `st_mode` happens to be.
unfoldable pub make_out : Bool → Chances → Disk → ℤ × Disk
make_out looks_like_directory c s =
    if stat_fails c s then mkdir c (if looks_like_directory then s else unlink c s) else (pos 0, s)

-- joblog_init. The result is what `mkdir` returns.
unfoldable pub joblog_init : Option Proc → Bool → Chances → Disk → ℤ × Disk
joblog_init none looks_like_directory c s = (negsuc 0, with_errno einval s)
joblog_init (some p) looks_like_directory c s =
    let (r, s') = if p.is_init then make_out looks_like_directory c (spoil c s) else (pos 0, s) in
    (r, joblog_delete (some p) c s')

-- `entry_num * JOB_STR_SIZE` as an `int` that wraps round, and whether `fseek` accepts it.
unfoldable pub seek : ℕ → Chances → Option ℕ
seek entry_num c =
    let offset = entry_num * job_str_size % 2 ^ 32 in
    if c.fseek && ltb offset (2 ^ 31) then some offset else none

-- The end of joblog_read. `e` is the errno at its start here and below, which every way out restores.
unfoldable pub read_line : ℕ → Option (List ℕ) → Ptr → Heap → Disk → (Ptr × Heap) × Disk
read_line e none job h s = ((none, h), with_errno e (fclose s))
read_line e (some text) job h s =
    let t = fclose s in let result = str_to_job (some text) job h in (result, with_errno e t)

unfoldable pub read_at : ℕ → Option ℕ → List ℕ → Ptr → Heap → Chances → Disk → (Ptr × Heap) × Disk
read_at e none t job h c s = ((none, h), with_errno e (fclose s))
read_at e (some offset) t job h c s =
    read_line e (fgets (job_str_size - 1) (drop offset t) c) job h s

unfoldable pub read_file :
    ℕ → Option (List ℕ) → ℕ → Ptr → Heap → Chances → Disk → (Ptr × Heap) × Disk
read_file e none entry_num job h c s = ((none, h), with_errno e s)
read_file e (some t) entry_num job h c s = read_at e (seek entry_num c) t job h c (open_stream s)

unfoldable pub read_log :
    ℕ → Option (List ℕ) → ℕ → Ptr → Heap → Chances → Disk → (Ptr × Heap) × Disk
read_log e none entry_num job h c s = ((none, h), with_errno e s)
read_log e (some name) entry_num job h c s =
    read_file e (fopen_r name c s) entry_num job h c (free_name s)

-- joblog_read: the job, the jobs in memory and the disk.
unfoldable pub joblog_read : Option Proc → ℤ → Ptr → Heap → Chances → Disk → (Ptr × Heap) × Disk
joblog_read none entry_num job h c s = ((none, h), with_errno s.errno s)
joblog_read (some p) (negsuc n) job h c s = ((none, h), with_errno s.errno s)
joblog_read (some p) (pos n) job h c s =
    let log_name = new_log_name (some p) c.asprintf in
    read_log s.errno log_name n job h c (own_name log_name (spoil c s))

-- What follows the call of job_to_str.
unfoldable pub write_entry : ℕ → List ℕ → Option (List ℕ) → Chances → Disk → Disk
write_entry e name none c s = with_errno e (fclose s)
write_entry e name (some job_str) c s =
    if c.fprintf
    then with_errno e (fclose (append name (until_nul job_str ++ (10 ∷ [])) s))
    else with_errno e (fclose s)

-- `job_str` is what the local array holds before.
unfoldable pub write_log : ℕ → Option (List ℕ) → Job → List ℕ → Chances → Disk → Disk
write_log e none j job_str c s = with_errno e s
write_log e (some name) j job_str c s =
    if fopen_a c s
    then write_entry e name (job_to_str (some j) (some job_str) true) c
        (free_name (open_stream (append name [] s)))
    else with_errno e (free_name s)

-- joblog_write
unfoldable pub joblog_write : Option Proc → Ptr → Heap → List ℕ → Chances → Disk → Disk
joblog_write none job h job_str c s = with_errno s.errno s
joblog_write (some p) none h job_str c s = with_errno s.errno s
joblog_write (some p) (some j) h job_str c s =
    let log_name = new_log_name (some p) c.asprintf in
    write_log s.errno log_name (h.cell j) job_str c (own_name log_name (spoil c s))
