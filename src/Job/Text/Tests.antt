-- ===== src/Job/Text/Tests.antt =====
-- Concrete runs of job_to_str and str_to_job, and the theorems about them at concrete inputs.
use csc.Base.{
  ◌≢◌, ℕ, ◌≡◌, ◌⊎◌, refl, true, false, Option, none, some, List, [], ◌∷◌, ◌++◌, arith, length, drop,
}
use csc.Base.Int.{pos, negsuc}
use csc.CString.{codes, strlen, snprintf_s}
use csc.CString.Format.{digits, places, print_signed, print_unsigned, print_text}
use csc.CString.Scan.{
  is_space, skip_space, expect, number, signed, with_sign, as_int, as_unsigned, scan_signed,
  scan_unsigned, nonempty, word, scan_word,
}
use csc.Job.{Job}
use csc.Job.Deliver.{Delivers}
use csc.Samples.{letters, job, heap, job-IsPlain}
use csc.Job.Text.{job_text, print_job, job_to_str, scan_job, str_to_job}
use csc.Job.Text.Sizes.{job_to_str-sizes}
use csc.Job.Text.RoundTrip.{str_to_job-job_to_str}

-- the entry of job.h
newjob : Job
newjob = record {
  pid = pos 5;
  id = 10;
  priority = 1;
  label = codes "newjob*************************" ++ (0 ∷ []);
}

newjob_text :
    job_to_str (some newjob) none true
    ≡ some
        (codes "pid:0000005,id:00010,pri:00001,label:newjob*************************" ++ (0 ∷ []))
unfolding job_to_str newjob strlen print_job snprintf_s job_text print_signed print_unsigned digits
    places print_text
newjob_text = refl

newjob_read :
    scan_job (codes "pid:0000005,id:00010,pri:00001,label:newjob*************************")
    ≡ some (pos 5, 10, 1, codes "newjob*************************")
unfolding scan_job expect scan_signed scan_unsigned skip_space is_space signed with_sign as_int
    as_unsigned number scan_word nonempty word
newjob_read = refl

-- A label with a space is cut there.
spaced_label : scan_word 31 (codes "two words**********************") ≡ some (codes "two")
unfolding scan_word skip_space is_space nonempty word
spaced_label = refl

negative_pid : print_signed 7 (negsuc 41) [] ≡ codes "-000042"
unfolding print_signed print_unsigned digits places
negative_pid = refl

job_to_str-sizes_example :
    ((strlen letters ≢ 31) × (job_to_str (some (job 10 1)) none true ≡ none))
    ⊎ ((◌≡◌ {A = Option (List ℕ)} none none)
        × (true ≡ false)
        × (job_to_str (some (job 10 1)) none true ≡ none))
    ⊎ ((b : List ℕ) × (job_to_str (some (job 10 1)) none true ≡ some b)
        × (strlen b ≡ 68)
        × (length b ≡ 69)
        × (drop 69 b ≡ []))
job_to_str-sizes_example = job_to_str-sizes (job 10 1) none true refl (omega arith)

str_to_job-job_to_str_example :
    ((◌≡◌ {A = Option (List ℕ)} none none)
      × (true ≡ false)
      × (job_to_str (some (job 10 1)) none true ≡ none))
    ⊎ ((b : List ℕ) × (job_to_str (some (job 10 1)) none true ≡ some b)
        × Delivers (job 10 1) (some 3) heap (str_to_job (some b) (some 3) heap))
str_to_job-job_to_str_example =
    str_to_job-job_to_str (job 10 1) none true (some 3) heap
      (job-IsPlain 10 1 (omega arith) (omega arith)) (omega arith)

-- An id of six digits pushes the end of the label out, and is not read again.
wide_id_text :
    job_to_str (some (record newjob { id = 123456 })) none true
    ≡ some
        (codes "pid:0000005,id:123456,pri:00001,label:newjob************************" ++ (0 ∷ []))
unfolding job_to_str newjob strlen print_job snprintf_s job_text print_signed print_unsigned digits
    places print_text
wide_id_text = refl

wide_id_refused :
    scan_job (codes "pid:0000005,id:123456,pri:00001,label:newjob************************") ≡ none
unfolding scan_job expect scan_signed scan_unsigned skip_space is_space signed with_sign as_int
    as_unsigned number
wide_id_refused = refl
