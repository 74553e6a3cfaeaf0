-- ===== src/Job/Text.antt =====
-- The text form of a job in job.h and job.c: job_to_str and str_to_job.
pub mod Print
pub mod Sizes
pub mod RoundTrip
pub mod Keeps
mod Tests
use csc.Base.{ℕ, ◌-◌, Bool, Option, none, some, List, ◌++◌, ◌==◌, if◌then◌else◌, replicate, ◌>>=◌}
use csc.Base.Int.{ℤ}
use csc.CString.{codes, until_nul, strlen, strncpy, snprintf_s}
use csc.CString.Format.{print_signed, print_unsigned, print_text}
use csc.CString.Scan.{expect, scan_signed, scan_unsigned, scan_word}
use csc.Job.{Job, Ptr, Heap, max_name_size, malloc, free, write}

-- JOB_STR_SIZE
abbrev pub job_str_size : ℕ
job_str_size = 69

-- What JOB_STR_FMT, "pid:%07d,id:%05u,pri:%05u,label:%31s", prints of the fields.
unfoldable pub job_text : ℤ → ℕ → ℕ → List ℕ → List ℕ
job_text pid id priority label =
    codes "pid:"
    ++ print_signed 7 pid (
        codes ",id:"
        ++ print_unsigned 5 id
            (codes ",pri:" ++ print_unsigned 5 priority (codes ",label:" ++ print_text 31 label)))

-- What `snprintf` leaves in a buffer. It does not fail on these conversions.
pub print_job : Job → List ℕ → List ℕ
print_job j buffer =
    snprintf_s buffer job_str_size (job_text j.pid j.id j.priority (until_nul j.label))

-- job_to_str: the buffer as it is then, or NULL. With a NULL `str` memory is asked for, which may be
-- `granted`, and is set to zeros.
pub job_to_str : Option Job → Option (List ℕ) → Bool → Option (List ℕ)
job_to_str none str granted = none
job_to_str (some j) str granted =
    if strlen j.label == max_name_size - 1
    then (elim str [
      | some buffer ↦ some (print_job j buffer)
      | none ↦ if granted then some (print_job j (replicate job_str_size 0)) else none
    ])
    else none

-- What `sscanf` with JOB_STR_FMT reads, if it makes all four conversions.
unfoldable pub scan_job : List ℕ → Option (ℤ × ℕ × ℕ × List ℕ)
scan_job s = do
  s₁ ← expect (codes "pid:") s
  (pid, s₂) ← scan_signed 7 s₁
  s₃ ← expect (codes ",id:") s₂
  (id, s₄) ← scan_unsigned 5 s₃
  s₅ ← expect (codes ",pri:") s₄
  (priority, s₆) ← scan_unsigned 5 s₅
  s₇ ← expect (codes ",label:") s₆
  label ← scan_word 31 s₇
  some (pid, id, priority, label)

-- `job` itself, or new memory.
abbrev pub target_job : Ptr → Heap → Ptr × Heap
target_job none h = malloc h
target_job (some p) h = (some p, h)

-- The end of str_to_job, with what `sscanf` has read.
pub fill_job : Ptr → Option (ℤ × ℕ × ℕ × List ℕ) → Ptr × Heap → Ptr × Heap
fill_job job read (none, h) = (none, h)
fill_job none none (some p, h) = (none, free (some p) h)
fill_job (some d) none (some p, h) = (none, h)
fill_job job (some (pid, id, priority, label)) (some p, h) = (
  some p,
  write h p
      (record { pid = pid; id = id; priority = priority; label = strncpy label max_name_size }),
)

-- str_to_job
pub str_to_job : Option (List ℕ) → Ptr → Heap → Ptr × Heap
str_to_job none job h = (none, h)
str_to_job (some s) job h =
    if strlen s == job_str_size - 1
    then fill_job job (scan_job (until_nul s)) (target_job job h)
    else (none, h)
