-- ===== src/Job/Text/RoundTrip.antt =====
-- str_to_job reads what job_to_str has written.
use csc.Base.{
  ℕ, suc, ◌≤◌, ◌≡◌, ◌≢◌, refl, sym, subst, ap, ◌∙◌, Bool, false, Option, none, some, List, ◌∷◌,
  ◌++◌, ◌⊎◌, inl, inr, arith, length, drop, All, Bool-cases,
}
use csc.Base.Int.{ℤ}
use csc.CString.{codes, until_nul, strncpy, printed}
use csc.CString.Format.{print_unsigned, print_text}
use csc.CString.Scan.{expect}
use csc.CString.Decimals.{
  Fits, IntFits, IsInk, print_text_full, scan_signed-print_signed, scan_unsigned-print_unsigned,
  scan_word-ink,
}
use csc.CString.Printed.{length-print_unsigned_fit, length-print_signed_fit}
use csc.CString.Laws.{until_nul-text, strlen-text, printed_whole, strncpy-text}
use csc.Job.{Job, Ptr, Heap, malloc}
use csc.Job.Copy.{HasLabel}
use csc.Job.Deliver.{Delivers}
use csc.Job.Text.{
  job_str_size, job_text, print_job, job_to_str, scan_job, target_job, fill_job, str_to_job,
}
use csc.Job.Text.Print.{
  IsLabel, until_nul-IsLabel, until_nul_whole, job_text-nonzero, text_of, print_job_fits, room,
  job_to_str-cases,
}

-- A job whose numbers fit the widths of JOB_STR_FMT, and whose label has no white space.
pub record IsPlain (j : Job) : Type 0 where
  pub labelled : HasLabel j
  pub ink : All IsInk (until_nul j.label)
  pub pid_fits : IntFits 7 j.pid
  pub id_fits : Fits 5 j.id
  pub priority_fits : Fits 5 j.priority

scan_job-text :
    (pid : ℤ) (id priority : ℕ) (label : List ℕ)
    → IntFits 7 pid
    → Fits 5 id
    → Fits 5 priority
    → All IsInk label
    → length label ≡ 31
    → scan_job (job_text pid id priority label) ≡ some (pid, id, priority, label)
unfolding scan_job job_text expect
scan_job-text pid id priority label hp hi hr ink size = rw (print_text_full 31 label size) (
    rw (scan_signed-print_signed 5 pid _ hp) (
      rw (scan_unsigned-print_unsigned 4 id _ hi) (
        rw (scan_unsigned-print_unsigned 4 priority _ hr)
          (rw (scan_word-ink 30 label ink size) refl))))

pub length-text_of : (j : Job) → IsPlain j → length (text_of j) ≡ 68
unfolding job_text
length-text_of j p =
    let label : IsLabel (until_nul j.label) = until_nul-IsLabel j p.labelled in
    let a : List ℕ = codes ",label:" ++ print_text 31 (until_nul j.label) in
    let b : List ℕ = codes ",pri:" ++ print_unsigned 5 j.priority a in
    let c : List ℕ = codes ",id:" ++ print_unsigned 5 j.id b in
    omega (
      arith,
      ap length (print_text_full 31 (until_nul j.label) label.size),
      label.size,
      length-print_unsigned_fit 5 j.priority a p.priority_fits,
      length-print_unsigned_fit 5 j.id b p.id_fits,
      length-print_signed_fit 6 j.pid c p.pid_fits,
    )

pub text_of-nonzero : (j : Job) → HasLabel j → All (λ c. c ≢ 0) (text_of j)
text_of-nonzero j h = job_text-nonzero j.pid j.id j.priority _ (until_nul-IsLabel j h)

-- The whole text of such a job stands in the buffer.
pub print_job-text :
    (j : Job) (buffer : List ℕ)
    → IsPlain j
    → job_str_size ≤ length buffer
    → print_job j buffer ≡ text_of j ++ (0 ∷ drop job_str_size buffer)
print_job-text j buffer p k =
    let size : length (text_of j) ≡ 68 = length-text_of j p in
    let whole : printed 68 (text_of j) ≡ text_of j =
      printed_whole 68 (text_of j) (text_of-nonzero j p.labelled) size in
    print_job_fits j buffer k
    ∙ ap (λ t. t ++ (0 ∷ drop (suc (length t)) buffer)) whole
    ∙ ap (λ n. text_of j ++ (0 ∷ drop (suc n) buffer)) size

read_label : (j : Job) → HasLabel j → strncpy (until_nul j.label) 32 ≡ j.label
read_label j h =
    let label = until_nul-IsLabel j h in
    strncpy-text 31 (until_nul j.label) label.text label.size ∙ until_nul_whole j h

-- What has been read of `j` is stored.
fill_job-Delivers :
    (j : Job) (dst : Ptr) (h : Heap)
    → HasLabel j
    → Delivers j dst h
        (fill_job dst (some (j.pid, j.id, j.priority, until_nul j.label)) (target_job dst h))
unfolding fill_job malloc
fill_job-Delivers j (some d) h full = ground (arith, read_label j full)
fill_job-Delivers j none h full = elim (Bool-cases (h.refuse h.next)) [
  | inl e ↦ ground arith
  | inr e ↦ ground (arith, read_label j full)
]

pub str_to_job-text :
    (j : Job) (r : List ℕ) (dst : Ptr) (h : Heap)
    → IsPlain j
    → Delivers j dst h (str_to_job (some (text_of j ++ (0 ∷ r))) dst h)
unfolding str_to_job
str_to_job-text j r dst h p =
    let nonzero = text_of-nonzero j p.labelled in
    let label = until_nul-IsLabel j p.labelled in
    rw (strlen-text (text_of j) r nonzero ∙ length-text_of j p) (
      rw (until_nul-text (text_of j) r nonzero) (
        rw
          (scan_job-text j.pid j.id j.priority (until_nul j.label) p.pid_fits p.id_fits
            p.priority_fits p.ink label.size)
          (fill_job-Delivers j dst h p.labelled)))

-- For a job whose label has 31 characters and no white space, whose `pid` fits 7 characters and
-- whose `id` and `priority` fit 5 digits, and a `str` with room for 69 bytes or NULL:
-- `str_to_job` of the string that `job_to_str` leaves delivers the same job to `dst`, or to a new
-- job where `dst` is NULL, and changes no other job; NULL comes only from `job_to_str` where
-- `str` is NULL and there is no memory, and from `str_to_job` where `dst` is NULL and there is no
-- memory.
pub str_to_job-job_to_str :
    (j : Job) (str : Option (List ℕ)) (granted : Bool) (dst : Ptr) (h : Heap)
    → IsPlain j
    → job_str_size ≤ length (room str)
    → ((str ≡ none) × (granted ≡ false) × (job_to_str (some j) str granted ≡ none))
      ⊎ ((b : List ℕ) × (job_to_str (some j) str granted ≡ some b)
          × Delivers j dst h (str_to_job (some b) dst h))
str_to_job-job_to_str j str granted dst h p k = elim (job_to_str-cases j str granted p.labelled) [
  | inl missing ↦ inl missing
  | inr e ↦ inr (
    print_job j (room str),
    e,
    subst (λ b. Delivers j dst h (str_to_job (some b) dst h))
        (sym (print_job-text j (room str) p k)) (str_to_job-text j _ dst h p),
  )
]
