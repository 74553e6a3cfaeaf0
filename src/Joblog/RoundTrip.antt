-- ===== src/Joblog/RoundTrip.antt =====
-- Entries that joblog_write has written are read again, in order, by the loop of joblog.h.
use csc.Base.{
  ◌==◌, ℕ, zero, suc, ◌+◌, ◌*◌, ◌^◌, ◌≡◌, ◌≢◌, ◌<◌, refl, sym, subst, ap, ◌∙◌, Bool, true, ◌&&◌,
  Option, none, some, List, [], ◌∷◌, ◌++◌, map, append_assoc, append-nil, arith, length,
  length-append, All, inl, inr, if◌then◌else◌,
}
use csc.Base.Int.{pos}
use csc.Job.{Job, Ptr, Heap}
use csc.CString.{strlen}
use csc.Job.Text.Print.{strlen-label}
use csc.Job.Deliver.{Delivers}
use csc.Job.Text.RoundTrip.{IsPlain}
use csc.Proc.{Proc}
use csc.Joblog.{log_name, joblog_init, joblog_read, joblog_write}
use csc.Joblog.System.{Disk, Chances, other}
use csc.Joblog.Laws.{Logged, lookup}
use csc.Joblog.Write.{joblog_write-Wrote}
use csc.Joblog.Read.{Reads, joblog_read-Reads}
use csc.Joblog.Init.{joblog_init-Logged}

-- No call fails.
pub record AllGranted (c : Chances) : Type 0 where
  pub named : c.asprintf ≡ true
  pub stat : c.stat ≡ true
  pub made : c.mkdir ≡ true
  pub removed : c.remove ≡ true
  pub opened : c.fopen ≡ true
  pub sought : c.fseek ≡ true
  pub got : c.fgets ≡ true
  pub printed : c.fprintf ≡ true

-- The jobs at some addresses are logged, one after the other.
pub write_all : Proc → List ℕ → Heap → List ℕ → Chances → Disk → Disk
write_all p [] h job_str c s = s
write_all p (a ∷ more) h job_str c s =
    write_all p more h job_str c (joblog_write (some p) (some a) h job_str c s)

-- A job that has been read is processed; the loop ends with the first NULL.
pub keep_entry : Ptr → Heap → Option (List Job) → Option (List Job)
keep_entry none h rest = some []
keep_entry (some q) h none = none
keep_entry (some q) h (some js) = some (h.cell q ∷ js)

-- `while ((jptr = joblog_read (proc, i, &job))) { …; i++; }`: the jobs that it sees. `none` is a
-- loop that has not ended after `fuel` rounds.
pub read_all : ℕ → ℕ → Proc → ℕ → Heap → Chances → Disk → Option (List Job)
read_all zero i p job h c s = none
read_all (suc fuel) i p job h c s =
    let ((r, h'), s') = joblog_read (some p) (pos i) (some job) h c s in
    let rest = read_all fuel (i + 1) p job h' c s' in keep_entry r h' rest

lookup-append : (pre post : List Job) → lookup (pre ++ post) (length pre) ≡ lookup post 0
lookup-append [] post = refl
lookup-append (x ∷ pre) post = lookup-append pre post

read_entry :
    (p : Proc) (k job : ℕ) (h : Heap) (jobs : List Job) (c : Chances) (s : Disk)
    → AllGranted c
    → Logged s (log_name p) jobs
    → k * 69 < 2 ^ 31
    → Reads (lookup jobs k) (some job) h (joblog_read (some p) (pos k) (some job) h c s).0
      × ((joblog_read (some p) (pos k) (some job) h c s).1 ≡ s)
read_entry p k job h jobs c s g l small =
    let (reads, same) = joblog_read-Reads p k (some job) h jobs c s l small in
    let granted : (c.asprintf && (c.fopen && (c.fseek && c.fgets))) ≡ true =
      ground (arith, g.named, g.opened, g.sought, g.got) in
    (
      subst
          (λ b.
            Reads (if b then lookup jobs k else none) (some job) h
              (joblog_read (some p) (pos k) (some job) h c s).0)
          granted reads,
      same,
    )

keep_entry_lem :
    (r : Ptr) (h : Heap) (rest : Option (List Job)) (a : ℕ) (j : Job) (js : List Job)
    → r ≡ some a
    → h.cell a ≡ j
    → rest ≡ some js
    → keep_entry r h rest ≡ some (j ∷ js)
unfolding keep_entry
keep_entry_lem r h rest a j js e f g = rw (e, g) (rw f refl)

keep_entry_end :
    (r : Ptr) (h : Heap) (rest : Option (List Job)) → r ≡ none → keep_entry r h rest ≡ some []
unfolding keep_entry
keep_entry_end r h rest e = rw e refl

delivered :
    (j : Job) (a : ℕ) (h : Heap) (out : Ptr × Heap)
    → Delivers j (some a) h out
    → (out.0 ≡ some a) × (out.1.cell a ≡ j)
delivered j a h out (inl (e, here, others)) = (e, here)
delivered j a h out (inr (missing, f, e, same)) = cc

read_rest :
    (fuel : ℕ) (pre post : List Job) (p : Proc) (job : ℕ) (h : Heap) (c : Chances) (s : Disk)
    → AllGranted c
    → Logged s (log_name p) (pre ++ post)
    → length (pre ++ post) * 69 < 2 ^ 31
    → length post < fuel
    → read_all fuel (length pre) p job h c s ≡ some post
unfolding read_all
read_rest zero pre post p job h c s g l small enough = absurd (omega arith)
read_rest (suc fuel) pre [] p job h c s g l small enough =
    let size = length-append pre [] in
    let (reads, same) =
      read_entry p (length pre) job h (pre ++ []) c s g l (omega (arith, size, small)) in
    let out = (joblog_read (some p) (pos (length pre)) (some job) h c s).0 in
    let ended : out ≡ (none, h) =
      subst (λ o. Reads o (some job) h out) (lookup-append pre []) reads in
    keep_entry_end out.0 out.1 _ (ap (λ (q : Ptr × Heap). q.0) ended)
read_rest (suc fuel) pre (j ∷ post) p job h c s g l small enough =
    let size = length-append pre (j ∷ post) in
    let (reads, same) =
      read_entry p (length pre) job h (pre ++ (j ∷ post)) c s g l (omega (arith, size, small)) in
    let ((r, h'), s') = joblog_read (some p) (pos (length pre)) (some job) h c s in
    let (here, is_j) =
      delivered j job h (r, h')
        (subst (λ o. Reads o (some job) h (r, h')) (lookup-append pre (j ∷ post)) reads) in
    let moved : pre ++ (j ∷ post) ≡ (pre ++ (j ∷ [])) ++ post =
      sym (append_assoc pre (j ∷ []) post) in
    let next : length pre + 1 ≡ length (pre ++ (j ∷ [])) =
      omega (arith, length-append pre (j ∷ [])) in
    let log : Logged s' (log_name p) ((pre ++ (j ∷ [])) ++ post) =
      subst (λ t. Logged t (log_name p) ((pre ++ (j ∷ [])) ++ post)) (sym same)
        (subst (Logged s (log_name p)) moved l) in
    let rest : read_all fuel (length pre + 1) p job h' c s' ≡ some post =
      ap (λ (k : ℕ). read_all fuel k p job h' c s') next
      ∙ read_rest fuel (pre ++ (j ∷ [])) post p job h' c s' g log
          (subst (λ js. length js * 69 < 2 ^ 31) moved small) (omega arith) in
    keep_entry_lem r h' (read_all fuel (length pre + 1) p job h' c s') job j post here is_j rest

write_all-Logged :
    (p : Proc) (more : List ℕ) (h : Heap) (job_str : List ℕ) (jobs : List Job) (c : Chances)
    (s : Disk)
    → AllGranted c
    → All (λ a. IsPlain (h.cell a)) more
    → length job_str ≡ 70
    → Logged s (log_name p) jobs
    → Logged (write_all p more h job_str c s) (log_name p) (jobs ++ map h.cell more)
unfolding write_all
write_all-Logged p [] h job_str jobs c s g plain k l =
    subst (Logged s (log_name p)) (sym (append-nil jobs)) l
write_all-Logged p (a ∷ more) h job_str jobs c s g (first, plain) k l =
    let full : (strlen (h.cell a).label == 31) ≡ true =
      ground (arith, strlen-label (h.cell a) first.labelled) in
    let granted : (c.asprintf && (c.fopen && (strlen (h.cell a).label == 31 && c.fprintf))) ≡ true =
      ground (arith, full, g.named, g.opened, g.printed) in
    let s' = joblog_write (some p) (some a) h job_str c s in
    let wrote : Logged s' (log_name p) (jobs ++ (h.cell a ∷ [])) =
      subst (λ b. Logged s' (log_name p) (jobs ++ (if b then h.cell a ∷ [] else []))) granted
        (joblog_write-Wrote p (some a) h job_str jobs c s l (λ e. first) k).logged in
    subst (Logged (write_all p more h job_str c s') (log_name p))
      (append_assoc jobs (h.cell a ∷ []) (map h.cell more))
      (write_all-Logged p more h job_str (jobs ++ (h.cell a ∷ [])) c s' g plain k wrote)

length-map : (f : ℕ → Job) (l : List ℕ) → length (map f l) ≡ length l
length-map f [] = refl
length-map f (a ∷ l) = ap suc (length-map f l)

-- Where JOBLOG_PATH is a directory or nothing and no call fails: after `joblog_init` of the init
-- process and `joblog_write` of any jobs, of which each has a label of 31 characters with no
-- white space and numbers that fit their widths, and which are fewer than an `int` has offsets
-- for, the documented loop over `joblog_read` ends within one round more than there are jobs, and
-- has read these jobs in the order in which they were written.
pub read_all-write_all :
    (p : Proc) (b : Bool) (written : List ℕ) (h k : Heap) (job_str : List ℕ) (job fuel : ℕ)
    (c : Chances) (s : Disk)
    → p.is_init ≡ true
    → s.out ≢ other
    → AllGranted c
    → All (λ a. IsPlain (h.cell a)) written
    → length job_str ≡ 70
    → length written * 69 < 2 ^ 31
    → length written < fuel
    → read_all fuel 0 p job k c (write_all p written h job_str c (joblog_init (some p) b c s).1)
      ≡ some (map h.cell written)
read_all-write_all p b written h k job_str job fuel c s first usable g plain size small enough =
    elim (joblog_init-Logged p b c s first usable g.named g.removed) [
      | inr (e, failed) ↦ ground (arith, g.stat, g.made)
      | inl (e, l) ↦
          let start = (joblog_init (some p) b c s).1 in
          read_rest fuel [] (map h.cell written) p job k c (write_all p written h job_str c start) g
            (write_all-Logged p written h job_str [] c start g plain size l)
            (omega (arith, length-map h.cell written, small))
            (omega (arith, length-map h.cell written, enough))
    ]
