-- ===== src/Joblog/Removing.antt =====
-- joblog_delete: one log is removed.
use csc.Base.{
  ℕ, ◌≡◌, ◌≢◌, refl, ◌&&◌, Option, none, some, List, inl, inr, arith, Bool-cases, if◌then◌else◌,
}
use csc.CString.{same_text}
use csc.Proc.{Proc}
use csc.Joblog.{log_name, new_log_name, remove_log, joblog_delete}
use csc.Joblog.System.{Disk, Chances, is_directory, remove_file, store}
use csc.Joblog.Laws.{store_here, store_elsewhere}

pub delete-out : (p : Proc) (c : Chances) (s : Disk) → (joblog_delete (some p) c s).out ≡ s.out
unfolding joblog_delete new_log_name remove_log remove_file
delete-out p c s = ground arith

store-none :
    (f : List ℕ → Option (List ℕ)) (name n : List ℕ) → f n ≡ none → store f name none n ≡ none
store-none f name n e = elim (Bool-cases (same_text name n)) [ inl y ↦ rw y refl | inr y ↦ rw y e ]

pub delete-none :
    (p : Proc) (c : Chances) (s : Disk) (n : List ℕ)
    → s.files n ≡ none
    → (joblog_delete (some p) c s).files n ≡ none
unfolding joblog_delete new_log_name remove_log remove_file
delete-none p c s n e = ground (arith, e, store-none s.files (log_name p) n e)

pub delete-other :
    (p : Proc) (c : Chances) (s : Disk) (n : List ℕ)
    → n ≢ log_name p
    → (joblog_delete (some p) c s).files n ≡ s.files n
unfolding joblog_delete new_log_name remove_log remove_file
delete-other p c s n e = ground (arith, store_elsewhere s.files (log_name p) n none e)

pub delete-log :
    (p : Proc) (c : Chances) (s : Disk)
    → (joblog_delete (some p) c s).files (log_name p)
      ≡ (if is_directory s.out && (c.asprintf && c.remove) then none else s.files (log_name p))
unfolding joblog_delete new_log_name remove_log remove_file
delete-log p c s = ground (arith, store_here s.files (log_name p) none)

pub delete-errno :
    (p : Proc) (c : Chances) (s : Disk) → (joblog_delete (some p) c s).errno ≡ s.errno
unfolding joblog_delete
delete-errno p c s = refl
