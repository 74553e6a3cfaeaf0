-- ===== src/Joblog/Tests.antt =====
-- Concrete runs of joblog.c, and the theorems about it at concrete inputs.
use csc.Base.{◌≡◌, refl, ap, true, none, some, List, [], ◌∷◌, ◌++◌, arith, replicate}
use csc.Base.Int.{pos}
use csc.CString.{codes, strlen, printed}
use csc.CString.Format.{digits, places, print_signed, print_unsigned}
use csc.Job.{Job}
use csc.Proc.{Proc, name_field, proctype_label}
use csc.Samples.{job, heap, proc, job-IsPlain}
use csc.Joblog.{log_name, joblog_init, joblog_read, joblog_write, joblog_delete}
use csc.Joblog.System.{Disk, Chances, absent, directory, other, contents, store}
use csc.Joblog.Laws.{Logged, log_text, store_here}
use csc.Joblog.Write.{Wrote, joblog_write-Wrote}
use csc.Joblog.Read.{Reads, joblog_read-Reads}
use csc.Joblog.Quiet.{Quiet, joblog-Quiet}
use csc.Joblog.Outcomes.{Initialised, joblog_init-Initialised}
use csc.Joblog.Harmless.{Harmless}
use csc.Joblog.RoundTrip.{AllGranted, write_all, read_all, read_all-write_all}
use csc.Joblog.Names.{IsNamed, new_log_name-injective}

-- Where nothing fails.
abbrev fine : Chances
fine = record {
  asprintf = true;
  stat = true;
  unlink = true;
  mkdir = true;
  remove = true;
  fopen = true;
  fseek = true;
  fgets = true;
  fprintf = true;
  errno = 5;
}

-- Two entries in the log of `proc`.
abbrev entries : List Job
entries = job 1 2 ∷ job 2 1 ∷ []

abbrev disk : Disk
disk = record {
  out = directory;
  files = store (λ n. none) (log_name proc) (some (log_text entries));
  errno = 0;
  names = 0;
  streams = 0;
}

abbrev bare : Disk
bare = record { out = absent; files = λ n. none; errno = 0; names = 0; streams = 0 }

abbrev blocked : Disk
blocked = record { out = other; files = λ n. none; errno = 0; names = 0; streams = 0 }

sem_cons_log : log_name proc ≡ codes "./out/sem_cons0000012.txt"
unfolding log_name printed print_signed print_unsigned digits places
sem_cons_log = refl

disk-Logged : Logged disk (log_name proc) entries
unfolding contents
disk-Logged = record {
  place = refl;
  text = ap contents (store_here (λ n. none) (log_name proc) (some (log_text entries)));
  plain = (
    job-IsPlain 1 2 (omega arith) (omega arith),
    (job-IsPlain 2 1 (omega arith) (omega arith), tt),
  );
}

-- `job 9 4` stands at address 0 of the heap.
joblog_write-Wrote_example :
    Wrote
      (log_name proc)
      (entries ++ (job 9 4 ∷ []))
      disk
      (joblog_write (some proc) (some 0) heap (replicate 70 7) fine disk)
unfolding strlen
joblog_write-Wrote_example =
    joblog_write-Wrote proc (some 0) heap (replicate 70 7) entries fine disk disk-Logged
      (λ e. job-IsPlain 9 4 (omega arith) (omega arith)) refl

joblog_read-Reads_example :
    Reads (some (job 2 1)) (some 3) heap (joblog_read (some proc) (pos 1) (some 3) heap fine disk).0
    × ((joblog_read (some proc) (pos 1) (some 3) heap fine disk).1 ≡ disk)
joblog_read-Reads_example =
    joblog_read-Reads proc 1 (some 3) heap entries fine disk disk-Logged (omega arith)

joblog-Quiet_example :
    ((joblog_read (some proc) (pos 0) none heap fine disk).1 ≡ disk)
    × Quiet (some proc) disk (joblog_write (some proc) none heap (replicate 70 7) fine disk)
    × Quiet (some proc) disk (joblog_delete (some proc) fine disk)
joblog-Quiet_example = joblog-Quiet (some proc) (pos 0) none heap (replicate 70 7) fine disk

joblog_init-Initialised_example :
    Initialised (some proc) true fine blocked (joblog_init (some proc) true fine blocked)
joblog_init-Initialised_example = joblog_init-Initialised (some proc) true fine blocked

-- A log with a line that is no job; the job that is read is to be new.
abbrev spoilt : Disk
spoilt = record disk { files = store (λ n. none) (log_name proc) (some (replicate 68 65)) }

abbrev fourth : Proc
fourth = record proc { type_label = name_field (proctype_label proc.type); id = pos 4 }

fourth-IsNamed : IsNamed fourth
fourth-IsNamed = record { label = refl; id_fits = refl }

new_log_name-injective_example : (fourth.type ≡ fourth.type) × (fourth.id ≡ fourth.id)
new_log_name-injective_example =
    new_log_name-injective fourth fourth fourth-IsNamed fourth-IsNamed refl

fine-AllGranted : AllGranted fine
fine-AllGranted = record {
  named = refl;
  stat = refl;
  made = refl;
  removed = refl;
  opened = refl;
  sought = refl;
  got = refl;
  printed = refl;
}

-- `job 9 4` is logged twice and read to address 3.
read_all-write_all_example :
    read_all 5 0 proc 3 heap fine (
      write_all proc
        (0 ∷ 0 ∷ [])
        heap
        (replicate 70 7)
        fine
        (joblog_init (some proc) true fine bare).1)
    ≡ some (job 9 4 ∷ job 9 4 ∷ [])
read_all-write_all_example =
    read_all-write_all proc true (0 ∷ 0 ∷ []) heap heap (replicate 70 7) 3 5 fine bare refl
      (λ e. cc) fine-AllGranted
      (
        job-IsPlain 9 4 (omega arith) (omega arith),
        (job-IsPlain 9 4 (omega arith) (omega arith), tt),
      )
      refl (omega arith) (omega arith)
