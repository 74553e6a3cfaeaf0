-- ===== src/Joblog/Harmless.antt =====
-- What joblog_read leaves of the jobs in memory, whatever the log holds.
use csc.Base.{◌≡◌}
use csc.Job.{Ptr, Heap}
use csc.Job.Text.Keeps.{Keeps}
use csc.Proc.{Proc}
use csc.Joblog.System.{Disk}

-- Failures are suppressed: the disk and errno are as before, as many names of logs are owned and
-- as many files open; the result is NULL, and as much memory for jobs is in use as before, or it is
-- the job to read to; no other job changes.
pub record Harmless (job : Ptr) (h : Heap) (s : Disk) (out : (Ptr × Heap) × Disk) : Type 0 where
  pub keeps : Keeps job h out.0
  pub disk : out.1 ≡ s
