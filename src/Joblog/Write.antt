-- ===== src/Joblog/Write.antt =====
-- joblog_write puts an entry at the end of the log.
use csc.Base.{
  ◌==◌, subst, ℕ, ◌≡◌, ◌≢◌, refl, sym, ap, ◌∙◌, Bool, true, false, ◌&&◌, Option, none, some, List,
  [], ◌∷◌, ◌++◌, append-nil, arith, length, drop, All, All-append, if◌then◌else◌, Bool-cases, inl,
  inr,
}
use csc.CString.{until_nul, strlen}
use csc.CString.Laws.{until_nul-text}
use csc.Job.{Job, Ptr, Heap}
use csc.Job.Text.{print_job, job_to_str}
use csc.Job.Text.Print.{text_of, job_to_str-cases, job_to_str_short}
use csc.Job.Text.RoundTrip.{IsPlain, print_job-text, text_of-nonzero}
use csc.Proc.{Proc}
use csc.Joblog.{log_name, new_log_name, write_entry, write_log, joblog_write}
use csc.Joblog.System.{
  Disk, Chances, directory, is_directory, fopen_a, append, contents, spoil, with_errno, own_name,
  free_name, open_stream,
}
use csc.Joblog.Restores.{own_name-same}
use csc.Joblog.Laws.{log_text, Logged, log_text-append, store_here, store_elsewhere}

-- The log under `name` now has the entries of `jobs`; no other log has changed.
pub record Wrote (name : List ℕ) (jobs : List Job) (s s' : Disk) : Type 0 where
  pub logged : Logged s' name jobs
  pub others : (n : List ℕ) → n ≢ name → s'.files n ≡ s.files n

append-Wrote :
    (name : List ℕ) (jobs more : List Job) (t : List ℕ) (s : Disk)
    → Logged s name jobs
    → All IsPlain more
    → log_text more ≡ log_text jobs ++ t
    → Wrote name more s (append name t s)
unfolding append contents
append-Wrote name jobs more t s h plain e =
    let new = some (contents (s.files name) ++ t) in
    record {
      logged = record {
        place = h.place;
        text = ap contents (store_here s.files name new) ∙ ap (λ u. u ++ t) h.text ∙ sym e;
        plain = plain;
      };
      others = λ n d. store_elsewhere s.files name n new d;
    }

-- The array of joblog_write has one place more than the text needs.
job_to_str_line :
    (j : Job) (job_str : List ℕ)
    → IsPlain j
    → length job_str ≡ 70
    → (b : List ℕ) × (job_to_str (some j) (some job_str) true ≡ some b) × (until_nul b ≡ text_of j)
job_to_str_line j job_str p k = elim (job_to_str-cases j (some job_str) true p.labelled) [
  | inl (missing, denied, e) ↦ cc
  | inr e ↦ (
    print_job j job_str,
    e,
    ap until_nul (print_job-text j job_str p (omega (arith, k)))
        ∙ until_nul-text (text_of j) (drop 69 job_str) (text_of-nonzero j p.labelled),
  )
]

-- A disk with the same files and the same JOBLOG_PATH.
Wrote-same :
    (name : List ℕ) (jobs : List Job) (s t t' : Disk)
    → t'.out ≡ t.out
    → t'.files ≡ t.files
    → Wrote name jobs s t
    → Wrote name jobs s t'
Wrote-same name jobs s t t' out files w =
    let file : (n : List ℕ) → t'.files n ≡ t.files n =
      λ n. ap (λ (f : List ℕ → Option (List ℕ)). f n) files in
    record {
      logged = record {
        place = out ∙ w.logged.place;
        text = ap contents (file name) ∙ w.logged.text;
        plain = w.logged.plain;
      };
      others = λ n d. file n ∙ w.others n d;
    }

kept-Wrote :
    (name : List ℕ) (jobs : List Job) (s t : Disk)
    → t.out ≡ s.out
    → t.files ≡ s.files
    → Logged s name jobs
    → Wrote name (jobs ++ []) s t
kept-Wrote name jobs s t out files h =
    Wrote-same name (jobs ++ []) s s t out files
      (record { logged = subst (Logged s name) (sym (append-nil jobs)) h; others = λ n d. refl })

-- A job that is refused leaves no entry.
write_entry-Wrote :
    (full : Bool) (e₀ : ℕ) (name : List ℕ) (j : Job) (job_str : List ℕ) (jobs : List Job)
    (c : Chances) (s : Disk)
    → Logged s name jobs
    → (strlen j.label == 31) ≡ full
    → (full ≡ true → IsPlain j)
    → length job_str ≡ 70
    → Wrote name
        (jobs ++ (if full && c.fprintf then j ∷ [] else []))
        s
        (write_entry e₀ name (job_to_str (some j) (some job_str) true) c s)
unfolding write_entry
write_entry-Wrote false e₀ name j job_str jobs c s h short plain k =
    rw (job_to_str_short j (some job_str) true short) (kept-Wrote name jobs s _ refl refl h)
write_entry-Wrote true e₀ name j job_str jobs c s h long plain k =
    let (b, e, shown) = job_to_str_line j job_str (plain refl) k in
    rw e (elim (Bool-cases c.fprintf) [
      | inr refused ↦ rw refused (kept-Wrote name jobs s _ refl refl h)
      | inl written ↦ rw written (
          Wrote-same name (jobs ++ (j ∷ [])) s (append name (until_nul b ++ (10 ∷ [])) s) _ refl
            refl
            (append-Wrote name jobs (jobs ++ (j ∷ [])) (until_nul b ++ (10 ∷ [])) s h
              (All-append IsPlain jobs (j ∷ []) h.plain (plain refl, tt))
              (log_text-append jobs j ∙ ap (λ t. log_text jobs ++ (t ++ (10 ∷ []))) (sym shown))))
    ])

opens : (c : Chances) (s : Disk) → s.out ≡ directory → fopen_a c s ≡ c.fopen
unfolding fopen_a is_directory
opens c s e = ground arith

module _ (name : List ℕ) (j : Job) (job_str : List ℕ) (jobs : List Job) (c : Chances)
    (plain : (strlen j.label == 31) ≡ true → IsPlain j) (size : length job_str ≡ 70) where
  -- Both outcomes of `fopen`.
  opened-Wrote :
      (opened : Bool) (e₀ : ℕ) (s : Disk)
      → Logged s name jobs
      → Wrote name
          (jobs ++ (if opened && (strlen j.label == 31 && c.fprintf) then j ∷ [] else []))
          s
          (if opened
            then write_entry e₀ name
                (job_to_str (some j) (some job_str) true)
                c
                (free_name (open_stream (append name [] s)))
            else with_errno e₀ (free_name s))
  opened-Wrote false e₀ s h = kept-Wrote name jobs s _ refl refl h
  opened-Wrote true e₀ s h =
      let created = append-Wrote name jobs jobs [] s h h.plain (sym (append-nil (log_text jobs))) in
      let opened = free_name (open_stream (append name [] s)) in
      let written =
        write_entry-Wrote (strlen j.label == 31) e₀ name j job_str jobs c opened
          (Wrote-same name jobs s (append name [] s) opened refl refl created).logged refl plain
          size in
      record { logged = written.logged; others = λ n d. written.others n d ∙ created.others n d }

  -- Both outcomes of new_log_name.
  write_log-Wrote :
      (named : Bool) (e₀ : ℕ) (s : Disk)
      → Logged s name jobs
      → Wrote name
          (jobs
            ++ (if named && (c.fopen && (strlen j.label == 31 && c.fprintf)) then j ∷ [] else []))
          s
          (write_log e₀ (if named then some name else none) j job_str c s)
  unfolding write_log
  write_log-Wrote false e₀ s h = kept-Wrote name jobs s _ refl refl h
  write_log-Wrote true e₀ s h = rw (opens c s h.place) (opened-Wrote c.fopen e₀ s h)

-- The entries that a call of joblog_write adds: one, if the calls that it makes succeed and the
-- label is of 31 characters.
abbrev pub appended : Ptr → Heap → Chances → List Job
appended none h c = []
appended (some a) h c =
    if c.asprintf && (c.fopen && (strlen (h.cell a).label == 31 && c.fprintf))
    then h.cell a ∷ []
    else []

-- If the label is of 31 characters, the text of the job can be read again.
abbrev pub IsLoggable : Ptr → Heap → Type 0
IsLoggable none h = Unit
IsLoggable (some a) h = (strlen (h.cell a).label == 31) ≡ true → IsPlain (h.cell a)

-- On a log of the jobs `jobs`, `joblog_write` makes it the log of `jobs` and one more, the given
-- job, if that is not NULL, its label has 31 characters, and the file name is made, the file
-- opened and the line printed; otherwise the log is that of `jobs` still. It is assumed that a
-- job with a label of 31 characters has no white space in the label and numbers that fit their
-- widths. No other log changes.
pub joblog_write-Wrote :
    (p : Proc) (job : Ptr) (h : Heap) (job_str : List ℕ) (jobs : List Job) (c : Chances) (s : Disk)
    → Logged s (log_name p) jobs
    → IsLoggable job h
    → length job_str ≡ 70
    → Wrote (log_name p) (jobs ++ appended job h c) s (joblog_write (some p) job h job_str c s)
unfolding joblog_write new_log_name
joblog_write-Wrote p none h job_str jobs c s logged loggable k =
    kept-Wrote (log_name p) jobs s _ refl refl logged
joblog_write-Wrote p (some a) h job_str jobs c s logged loggable k =
    let named = own_name (new_log_name (some p) c.asprintf) (spoil c s) in
    let (place, files) = own_name-same (new_log_name (some p) c.asprintf) (spoil c s) in
    let file : (n : List ℕ) → named.files n ≡ s.files n =
      λ n. ap (λ (f : List ℕ → Option (List ℕ)). f n) files in
    let start : Logged named (log_name p) jobs = record {
      place = place ∙ logged.place;
      text = ap contents (file (log_name p)) ∙ logged.text;
      plain = logged.plain;
    } in
    let w =
      write_log-Wrote (log_name p) (h.cell a) job_str jobs c loggable k c.asprintf s.errno named
        start in
    record { logged = w.logged; others = λ n d. w.others n d ∙ file n }
