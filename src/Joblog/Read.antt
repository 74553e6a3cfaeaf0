-- ===== src/Joblog/Read.antt =====
-- joblog_read returns the entry that is asked for.
use csc.Base.{
  ℕ, zero, suc, ◌*◌, ◌^◌, ◌%◌, ◌≡◌, ◌≢◌, ◌<◌, refl, sym, subst, ap, ◌∙◌, Bool, true, false, ◌&&◌,
  Option, none, some, List, [], ◌∷◌, ◌++◌, append_assoc, arith, length, length-append, drop, All,
  if◌then◌else◌,
}
use csc.Base.Int.{pos}
use csc.CString.{until_nul}
use csc.CString.Scan.{is_space}
use csc.CString.Decimals.{IsInk}
use csc.Job.{Job, Ptr, Heap}
use csc.Job.Deliver.{Delivers}
use csc.Job.Text.Print.{text_of, All-job_text, until_nul-IsLabel}
use csc.Job.Text.RoundTrip.{IsPlain, length-text_of, str_to_job-text}
use csc.Proc.{Proc}
use csc.Joblog.{log_name, new_log_name, joblog_read, read_log, read_file, read_at, read_line, seek}
use csc.Joblog.System.{
  Disk, Chances, directory, is_directory, fopen_r, contents, line, nonempty_line, fgets, spoil,
  own_name, free_name, open_stream,
}
use csc.Joblog.Restores.{own_name-same, joblog_read-disk}
use csc.Joblog.Laws.{
  log_entry, log_text, Logged, Rest, length-log_entry, drop-log_text, lookup, line-text,
}

-- What is read of an entry, or of none.
abbrev pub Reads : Option Job → Ptr → Heap → Ptr × Heap → Type 0
Reads none dst h out = out ≡ (none, h)
Reads (some j) dst h out = Delivers j dst h out

Reads-none : (b : Bool) (dst : Ptr) (h : Heap) → Reads (if b then none else none) dst h (none, h)
Reads-none true dst h = refl
Reads-none false dst h = refl

IsInk-no_newline : (s : List ℕ) → All IsInk s → All (λ c. c ≢ 10) s
unfolding is_space
IsInk-no_newline [] h = tt
IsInk-no_newline (c ∷ s) (here, h) =
    let dark = here.dark in (λ (e : c ≡ 10). ground arith, IsInk-no_newline s h)

text_of-no_newline : (j : Job) → IsPlain j → All (λ c. c ≢ 10) (text_of j)
text_of-no_newline j p =
    All-job_text (λ c. c ≢ 10) (λ d k e. omega arith) (λ e. omega arith) (omega arith) j.pid j.id
      j.priority (until_nul j.label) (IsInk-no_newline (until_nul j.label) p.ink)
      (until_nul-IsLabel j p.labelled).size

nonempty_line-some :
    (n : ℕ) (t : List ℕ) → length t ≡ suc n → nonempty_line t ≡ some (t ++ (0 ∷ []))
unfolding nonempty_line
nonempty_line-some n [] e = absurd (omega arith)
nonempty_line-some n (c ∷ t) e = refl

-- `fgets` reads the text of an entry without the new line.
fgets-log_entry :
    (j : Job) (r : List ℕ)
    → IsPlain j
    → nonempty_line (line 68 (log_entry j ++ r)) ≡ some (text_of j ++ (0 ∷ []))
fgets-log_entry j r p =
    ap (λ t. nonempty_line (line 68 t)) (append_assoc (text_of j) (10 ∷ []) r)
    ∙ ap nonempty_line
        (line-text 68 (text_of j) (10 ∷ r) (text_of-no_newline j p) (length-text_of j p))
    ∙ nonempty_line-some 67 (text_of j) (length-text_of j p)

read_line-Reads :
    (got : Bool) (js : List Job) (k : ℕ) (t : List ℕ) (dst : Ptr) (h : Heap) (e₀ : ℕ) (s : Disk)
    → All IsPlain js
    → Rest js k t
    → Reads
        (if got then lookup js k else none)
        dst
        h
        (read_line e₀ (if got then nonempty_line (line 68 t) else none) dst h s).0
unfolding read_line nonempty_line line
read_line-Reads false js k t dst h e₀ s plain e = refl
read_line-Reads true [] k t dst h e₀ s plain e =
    subst (λ u. (read_line e₀ (nonempty_line (line 68 u)) dst h s).0 ≡ (none, h)) (sym e) refl
read_line-Reads true (j ∷ js) zero t dst h e₀ s (p, plain) e =
    subst (λ u. Delivers j dst h (read_line e₀ (nonempty_line (line 68 u)) dst h s).0) (sym e)
      (subst (λ o. Delivers j dst h (read_line e₀ o dst h s).0)
        (sym (fgets-log_entry j (log_text js) p)) (str_to_job-text j [] dst h p))
read_line-Reads true (j ∷ js) (suc k) t dst h e₀ s (p, plain) e =
    read_line-Reads true js k t dst h e₀ s plain e

-- Both outcomes of `fseek`.
read_at-Reads :
    (sought : Bool) (js : List Job) (k : ℕ) (dst : Ptr) (h : Heap) (c : Chances) (e₀ : ℕ) (s : Disk)
    → All IsPlain js
    → Reads
        (if sought && c.fgets then lookup js k else none)
        dst
        h
        (read_at e₀ (if sought then some (k * 69) else none) (log_text js) dst h c s).0
unfolding read_at fgets
read_at-Reads false js k dst h c e₀ s plain = refl
read_at-Reads true js k dst h c e₀ s plain =
    read_line-Reads c.fgets js k (drop (k * 69) (log_text js)) dst h e₀ s plain
      (drop-log_text js k plain)

-- An offset that an `int` holds.
seek_lem :
    (k : ℕ) (c : Chances) → k * 69 < 2 ^ 31 → seek k c ≡ (if c.fseek then some (k * 69) else none)
unfolding seek
seek_lem k c h = let small : k * 69 % 2 ^ 32 ≡ k * 69 = omega arith in rw small (ground (arith, h))

log_text-empty : (js : List Job) → All IsPlain js → log_text js ≡ [] → js ≡ []
log_text-empty [] plain e = refl
log_text-empty (j ∷ js) (p, plain) e =
    absurd
      (omega (arith, ap length e, length-append (log_entry j) (log_text js), length-log_entry j p))

read_file-Reads :
    (file : Option (List ℕ)) (js : List Job) (k : ℕ) (dst : Ptr) (h : Heap) (c : Chances) (e₀ : ℕ)
    (s : Disk)
    → All IsPlain js
    → contents file ≡ log_text js
    → k * 69 < 2 ^ 31
    → Reads
        (if c.fseek && c.fgets then lookup js k else none)
        dst
        h
        (read_file e₀ file k dst h c s).0
unfolding read_file contents
read_file-Reads none js k dst h c e₀ s plain e small =
    rw (log_text-empty js plain (sym e)) (Reads-none (c.fseek && c.fgets) dst h)
read_file-Reads (some t) js k dst h c e₀ s plain e small =
    rw (seek_lem k c small, e) (read_at-Reads c.fseek js k dst h c e₀ (open_stream s) plain)

read_log-Reads :
    (named opened : Bool) (name : List ℕ) (js : List Job) (k : ℕ) (dst : Ptr) (h : Heap)
    (c : Chances) (e₀ : ℕ) (s : Disk)
    → Logged s name js
    → k * 69 < 2 ^ 31
    → fopen_r name c s ≡ (if opened then s.files name else none)
    → Reads
        (if named && (opened && (c.fseek && c.fgets)) then lookup js k else none)
        dst
        h
        (read_log e₀ (if named then some name else none) k dst h c s).0
unfolding read_log read_file
read_log-Reads false opened name js k dst h c e₀ s l small e = refl
read_log-Reads true false name js k dst h c e₀ s l small e = rw e refl
read_log-Reads true true name js k dst h c e₀ s l small e =
    rw e (read_file-Reads (s.files name) js k dst h c e₀ (free_name s) l.plain l.text small)

fopen_r-directory :
    (name : List ℕ) (c : Chances) (s : Disk)
    → s.out ≡ directory
    → fopen_r name c s ≡ (if c.fopen then s.files name else none)
unfolding fopen_r is_directory
fopen_r-directory name c s e = ground arith

-- On a log of the jobs `jobs`, for an entry number whose offset in the file is below 2 ^ 31,
-- `joblog_read` delivers the job of that number to `dst`, or to new memory where `dst` is NULL;
-- it returns NULL with the jobs in memory as they are beyond the end of the log, or where a call
-- fails. The disk and errno are as before.
pub joblog_read-Reads :
    (p : Proc) (k : ℕ) (dst : Ptr) (h : Heap) (jobs : List Job) (c : Chances) (s : Disk)
    → Logged s (log_name p) jobs
    → k * 69 < 2 ^ 31
    → Reads
        (if c.asprintf && (c.fopen && (c.fseek && c.fgets)) then lookup jobs k else none)
        dst
        h
        (joblog_read (some p) (pos k) dst h c s).0
      × ((joblog_read (some p) (pos k) dst h c s).1 ≡ s)
unfolding joblog_read new_log_name
joblog_read-Reads p k dst h jobs c s l small =
    let named = own_name (new_log_name (some p) c.asprintf) (spoil c s) in
    let (place, files) = own_name-same (new_log_name (some p) c.asprintf) (spoil c s) in
    let start : Logged named (log_name p) jobs = record {
      place = place ∙ l.place;
      text = ap (λ (f : List ℕ → Option (List ℕ)). contents (f (log_name p))) files ∙ l.text;
      plain = l.plain;
    } in
    (
      read_log-Reads c.asprintf c.fopen (log_name p) jobs k dst h c s.errno named start small
          (fopen_r-directory (log_name p) c named (place ∙ l.place)),
      joblog_read-disk (some p) (pos k) dst h c s,
    )
