-- ===== src/Joblog/Outcomes.antt =====
-- How joblog_init ends, whichever of its calls fail.
use csc.Base.{
  ℕ, ◌≡◌, refl, sym, ap, subst, ◌∙◌, Bool, true, false, not, ◌&&◌, Option, none, some, List, ◌⊎◌,
  inl, inr, Bool-cases, if◌then◌else◌,
}
use csc.Base.Int.{ℤ, pos, negsuc}
use csc.CString.{same_text}
use csc.CString.Laws.{same_text_iff}
use csc.Job.{Ptr, Heap}
use csc.Proc.{Proc}
use csc.Ipc.{einval}
use csc.Joblog.{log_name, joblog_delete, make_out, joblog_init, joblog_read, joblog_write}
use csc.Joblog.System.{
  Out, Disk, Chances, absent, directory, other, is_directory, mkdir, spoil, with_errno,
}
use csc.Joblog.Init.{write-other, read-other}
use csc.Joblog.Making.{
  mkdir-made, mkdir-fails, absent_fails, make_out-absent, make_out-found, make_out-directory,
  make_out-removed, make_out-stuck,
}
use csc.Joblog.Removing.{delete-out, delete-log, delete-none, delete-other, delete-errno}

-- The log of `p` is removed where it can be; all else is as in `s`.
pub record Emptied (p : Proc) (c : Chances) (s s' : Disk) : Type 0 where
  pub out : s'.out ≡ s.out
  pub log :
      s'.files (log_name p)
      ≡ (if is_directory s.out && (c.asprintf && c.remove) then none else s.files (log_name p))
  pub others : (n : List ℕ) → (n ≡ log_name p) ⊎ (s'.files n ≡ s.files n)

-- A directory without any log.
pub record IsNewDirectory (s' : Disk) : Type 0 where
  pub out : s'.out ≡ directory
  pub files : (n : List ℕ) → s'.files n ≡ none

-- A file stands at JOBLOG_PATH: jobs that are logged are lost, and none is read.
pub record IsBlocked (s' : Disk) : Type 0 where
  pub out : s'.out ≡ other
  pub write :
      (q : Proc) (job : Ptr) (h : Heap) (job_str : List ℕ) (d : Chances)
      → joblog_write (some q) job h job_str d s' ≡ s'
  pub read :
      (q : Proc) (n : ℤ) (dst : Ptr) (h : Heap) (d : Chances)
      → (joblog_read (some q) n dst h d s').0 ≡ (none, h)

-- `mkdir` where nothing stands at JOBLOG_PATH.
abbrev pub Made : Chances → ℤ × Disk → Type 0
Made c (r, s') =
    (c.mkdir ≡ true) × (r ≡ pos 0) × IsNewDirectory s'
    ⊎ (c.mkdir ≡ false) × (r ≡ negsuc 0) × (s'.out ≡ absent)

-- What is returned and left for a process that is the init process or not, by what stands at JOBLOG_PATH and by
-- whether `stat` works.
abbrev pub Started : Proc → Bool → Chances → Disk → Bool → Out → Bool → ℤ × Disk → Type 0
Started p b c s false o st (r, s') = (r ≡ pos 0) × (s'.errno ≡ s.errno) × Emptied p c s s'
Started p b c s true directory true (r, s') = (r ≡ pos 0) × Emptied p c s s'
Started p b c s true directory false (r, s') = (r ≡ negsuc 0) × Emptied p c s s'
Started p b c s true absent st out = Made c out
Started p b c s true other true (r, s') = (r ≡ pos 0) × IsBlocked s'
Started p b c s true other false (r, s') =
    ((not b && c.unlink) ≡ true) × Made c (r, s')
    ⊎ ((not b && c.unlink) ≡ false) × (r ≡ negsuc 0) × IsBlocked s'

abbrev pub Initialised : Option Proc → Bool → Chances → Disk → ℤ × Disk → Type 0
Initialised none b c s out = out ≡ (negsuc 0, with_errno einval s)
Initialised (some p) b c s out = Started p b c s p.is_init s.out c.stat out

blocked : (s : Disk) → s.out ≡ other → IsBlocked s
blocked s e = record {
  out = e;
  write = λ q job h job_str d. write-other q job h job_str d s e;
  read = λ q n dst h d. read-other q n dst h d s e;
}

delete-Emptied :
    (p : Proc) (c : Chances) (s t : Disk)
    → t.out ≡ s.out
    → t.files ≡ s.files
    → Emptied p c s (joblog_delete (some p) c t)
delete-Emptied p c s t out files = record {
  out = delete-out p c t ∙ out;
  log =
      delete-log p c t
      ∙ ap (λ o. if is_directory o && (c.asprintf && c.remove) then none else t.files (log_name p))
          out
      ∙ ap
          (λ (f : List ℕ → Option (List ℕ)).
            if is_directory s.out && (c.asprintf && c.remove) then none else f (log_name p))
          files;
  others = λ n. elim (Bool-cases (same_text n (log_name p))) [
    | inl e ↦ inl ((same_text_iff n (log_name p)).0 e)
    | inr e ↦ inr (
        delete-other p c t n (λ same. cc ((same_text_iff n (log_name p)).1 same))
        ∙ ap (λ (f : List ℕ → Option (List ℕ)). f n) files)
  ];
}

-- `mkdir` where nothing stands.
mkdir-cases :
    (p : Proc) (c : Chances) (s : Disk)
    → s.out ≡ absent
    → ((c.mkdir ≡ true)
        × ((mkdir c s).0 ≡ pos 0)
        × IsNewDirectory (joblog_delete (some p) c (mkdir c s).1))
      ⊎ ((c.mkdir ≡ false)
          × ((mkdir c s).0 ≡ negsuc 0)
          × ((joblog_delete (some p) c (mkdir c s).1).out ≡ absent))
mkdir-cases p c s e = elim (Bool-cases c.mkdir) [
  | inl y ↦ inl (
    y,
    (mkdir-made c s e y).0,
    record {
      out = delete-out p c (mkdir c s).1 ∙ (mkdir-made c s e y).1;
      files = λ n. delete-none p c (mkdir c s).1 n ((mkdir-made c s e y).2 n);
    },
  )
  | inr y ↦ inr (
    y,
    ap (λ o. o.0) (mkdir-fails c s (absent_fails c s y)),
    delete-out p c (mkdir c s).1 ∙ ap (λ o. o.1.out) (mkdir-fails c s (absent_fails c s y)) ∙ e,
  )
]

abbrev deleted : Proc → Chances → ℤ × Disk → ℤ × Disk
deleted p c (r, s) = (r, joblog_delete (some p) c s)

init-first :
    (p : Proc) (b : Bool) (c : Chances) (s : Disk)
    → p.is_init ≡ true
    → joblog_init (some p) b c s ≡ deleted p c (make_out b c (spoil c s))
unfolding joblog_init
init-first p b c s e = rw e refl

init-next :
    (p : Proc) (b : Bool) (c : Chances) (s : Disk)
    → p.is_init ≡ false
    → joblog_init (some p) b c s ≡ (pos 0, joblog_delete (some p) c s)
unfolding joblog_init
init-next p b c s e = rw e refl

init-Started :
    (p : Proc) (b : Bool) (c : Chances) (s : Disk) (first : Bool) (o : Out) (st : Bool)
    → p.is_init ≡ first
    → s.out ≡ o
    → c.stat ≡ st
    → Started p b c s first o st (joblog_init (some p) b c s)
init-Started p b c s false o st e f g =
    subst (Started p b c s false o st) (sym (init-next p b c s e))
      (refl, delete-errno p c s, delete-Emptied p c s s refl refl)
init-Started p b c s true directory true e f g =
    subst (Started p b c s true directory true)
      (sym (init-first p b c s e ∙ ap (deleted p c) (make_out-found b c (spoil c s) (λ x. cc) g)))
      (refl, delete-Emptied p c s (spoil c s) refl refl)
init-Started p b c s true directory false e f g =
    let (t, out, files, made) = make_out-directory b c (spoil c s) f g in
    subst (Started p b c s true directory false)
      (sym (init-first p b c s e ∙ ap (deleted p c) made)) (refl, delete-Emptied p c s t out files)
init-Started p b c s true absent st e f g =
    let (t, out, made) = make_out-absent b c (spoil c s) f in
    subst (Started p b c s true absent st) (sym (init-first p b c s e ∙ ap (deleted p c) made))
      (mkdir-cases p c t out)
init-Started p b c s true other true e f g =
    subst (Started p b c s true other true)
      (sym (init-first p b c s e ∙ ap (deleted p c) (make_out-found b c (spoil c s) (λ x. cc) g)))
      (refl, blocked _ (delete-out p c (spoil c s) ∙ f))
init-Started p b c s true other false e f g = elim (Bool-cases (not b && c.unlink)) [
  | inl u ↦
      let (t, out, made) = make_out-removed b c (spoil c s) f g u in
      subst (Started p b c s true other false) (sym (init-first p b c s e ∙ ap (deleted p c) made))
        (inl (u, mkdir-cases p c t out))
  | inr u ↦
      subst (Started p b c s true other false)
        (sym (init-first p b c s e ∙ ap (deleted p c) (make_out-stuck b c (spoil c s) f g u)))
        (inr (u, refl, blocked _ (delete-out p c (spoil c s) ∙ f)))
]

-- How `joblog_init` ends, for all arguments and whichever of its calls fail. A NULL `proc` gives
-- -1 and EINVAL. A process that is not init gets 0 and errno as it was; its log is removed if the
-- name is made and the removal works, and no other log changes. For the init process: where
-- `stat` finds a directory, it gets 0 and its log is removed in the same way; where `stat` finds
-- another file, it gets 0 although the file stands there still, and then `joblog_write` changes
-- nothing and `joblog_read` returns NULL; where nothing is there, it gets 0 and a directory
-- without logs, or -1 if `mkdir` fails; where `stat` fails on a directory, it gets -1 and its log
-- is removed all the same; and where `stat` fails on another file, that file is replaced by a
-- directory if the `st_mode` that was not set does not look like one and `unlink` and `mkdir`
-- succeed, and otherwise it gets -1.
pub joblog_init-Initialised :
    (proc : Option Proc) (b : Bool) (c : Chances) (s : Disk)
    → Initialised proc b c s (joblog_init proc b c s)
unfolding joblog_init
joblog_init-Initialised none b c s = refl
joblog_init-Initialised (some p) b c s = init-Started p b c s p.is_init s.out c.stat refl refl refl
