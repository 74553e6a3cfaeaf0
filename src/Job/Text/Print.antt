-- ===== src/Job/Text/Print.antt =====
-- What job_to_str writes.
use csc.Base.{
  ℕ, suc, ◌+◌, ◌≤◌, ◌≡◌, ◌≢◌, ◌==◌, refl, sym, subst, ap, ◌∙◌, Bool, true, false, Option, none,
  some, List, [], ◌∷◌, ◌++◌, ◌⊎◌, inl, inr, arith, length, drop, replicate, All, All-append,
  All-left, All-right,
}
use csc.Base.Int.{ℤ}
use csc.CString.{codes, until_nul, strlen, printed}
use csc.CString.Format.{print_unsigned, print_text}
use csc.CString.Decimals.{print_text_full}
use csc.CString.Printed.{
  All-print_unsigned, All-print_signed, length-print_unsigned, length-print_signed,
}
use csc.CString.Laws.{
  strnlen-strlen, printed_of_full, until_nul-text, printed-nonzero, strlen-text, snprintf_s_fits,
}
use csc.Job.{Job}
use csc.Job.Copy.{HasLabel}
use csc.Job.Text.{job_str_size, job_text, print_job, job_to_str}

-- The characters of a label of 31.
pub record IsLabel (s : List ℕ) : Type 0 where
  pub size : length s ≡ 31
  pub text : All (λ c. c ≢ 0) s

-- The text of a label that fills its array.
pub until_nul-IsLabel : (j : Job) → HasLabel j → IsLabel (until_nul j.label)
until_nul-IsLabel j h =
    let (size, whole) = printed_of_full 31 j.label h in
    let shown : until_nul j.label ≡ printed 31 j.label =
      ap until_nul (sym whole)
      ∙ until_nul-text (printed 31 j.label) [] (printed-nonzero 31 j.label) in
    record {
      size = ap length shown ∙ size;
      text = subst (All (λ c. c ≢ 0)) (sym shown) (printed-nonzero 31 j.label);
    }

pub until_nul_whole : (j : Job) → HasLabel j → until_nul j.label ++ (0 ∷ []) ≡ j.label
until_nul_whole j h =
    let (size, whole) = printed_of_full 31 j.label h in
    ap (λ t. until_nul t ++ (0 ∷ [])) (sym whole)
    ∙ ap (λ t. t ++ (0 ∷ [])) (until_nul-text (printed 31 j.label) [] (printed-nonzero 31 j.label))
    ∙ whole

pub strlen-label : (j : Job) → HasLabel j → strlen j.label ≡ 31
strlen-label j h =
    ap strlen (sym (until_nul_whole j h))
    ∙ strlen-text (until_nul j.label) [] (until_nul-IsLabel j h).text
    ∙ (until_nul-IsLabel j h).size

module _ (P : ℕ → Type 0) (digit : (d : ℕ) → d ≤ 9 → P (b'0' + d)) (dash : P b'-')
    (words : All P (codes "pid:,id:,pri:,label:")) where
  pub All-job_text :
      (pid : ℤ) (id priority : ℕ) (label : List ℕ)
      → All P label
      → length label ≡ 31
      → All P (job_text pid id priority label)
  unfolding job_text
  All-job_text pid id priority label h size =
      let pid_part = All-left P (codes "pid:") (codes ",id:,pri:,label:") words in
      let after_pid = All-right P (codes "pid:") (codes ",id:,pri:,label:") words in
      let id_part = All-left P (codes ",id:") (codes ",pri:,label:") after_pid in
      let after_id = All-right P (codes ",id:") (codes ",pri:,label:") after_pid in
      let pri_part = All-left P (codes ",pri:") (codes ",label:") after_id in
      let label_part = All-right P (codes ",pri:") (codes ",label:") after_id in
      All-append P (codes "pid:") _ pid_part (
        All-print_signed P digit dash 7 pid _ (
          All-append P (codes ",id:") _ id_part (
            All-print_unsigned P digit dash 5 id _ (
              All-append P (codes ",pri:") _ pri_part (
                All-print_unsigned P digit dash 5 priority _ (
                  All-append P (codes ",label:") _ label_part
                    (subst (All P) (sym (print_text_full 31 label size)) h)))))))

pub job_text-nonzero :
    (pid : ℤ) (id priority : ℕ) (label : List ℕ)
    → IsLabel label
    → All (λ c. c ≢ 0) (job_text pid id priority label)
job_text-nonzero pid id priority label h =
    All-job_text (λ c. c ≢ 0) (λ d k e. omega arith) (λ e. omega arith) (omega arith) pid id
      priority label h.text h.size

pub length-job_text :
    (pid : ℤ) (id priority : ℕ) (label : List ℕ)
    → IsLabel label
    → 68 ≤ length (job_text pid id priority label)
unfolding job_text
length-job_text pid id priority label h =
    let a : List ℕ = codes ",label:" ++ print_text 31 label in
    let b : List ℕ = codes ",pri:" ++ print_unsigned 5 priority a in
    let c : List ℕ = codes ",id:" ++ print_unsigned 5 id b in
    omega (
      arith,
      ap length (print_text_full 31 label h.size),
      h.size,
      length-print_unsigned 5 priority a,
      length-print_unsigned 5 id b,
      length-print_signed 7 pid c,
    )

-- The text of a job with a full label.
abbrev pub text_of : Job → List ℕ
text_of j = job_text j.pid j.id j.priority (until_nul j.label)

pub print_job_fits :
    (j : Job) (buffer : List ℕ)
    → job_str_size ≤ length buffer
    → print_job j buffer
      ≡ printed 68 (text_of j) ++ (0 ∷ drop (suc (length (printed 68 (text_of j)))) buffer)
unfolding print_job
print_job_fits j buffer h = snprintf_s_fits 68 buffer (text_of j) h

-- The array that is written to: `str`, or new memory.
abbrev pub room : Option (List ℕ) → List ℕ
room none = replicate job_str_size 0
room (some buffer) = buffer

-- There is no memory, or the text is written.
pub job_to_str-cases :
    (j : Job) (str : Option (List ℕ)) (granted : Bool)
    → HasLabel j
    → ((str ≡ none) × (granted ≡ false) × (job_to_str (some j) str granted ≡ none))
      ⊎ (job_to_str (some j) str granted ≡ some (print_job j (room str)))
unfolding job_to_str
job_to_str-cases j none true h = inr (rw (strlen-label j h) refl)
job_to_str-cases j none false h = inl (refl, refl, rw (strlen-label j h) refl)
job_to_str-cases j (some buffer) granted h = inr (rw (strlen-label j h) refl)

-- An array of 32 bytes with a string of 31.
pub full_label : (j : Job) → length j.label ≡ 32 → (strlen j.label == 31) ≡ true → HasLabel j
full_label j h e = record {
  size = h;
  text = strnlen-strlen 32 j.label (omega (arith, h)) ∙ ground arith;
}

-- A job whose label is not of 31 characters is refused.
pub job_to_str_short :
    (j : Job) (str : Option (List ℕ)) (granted : Bool)
    → (strlen j.label == 31) ≡ false
    → job_to_str (some j) str granted ≡ none
unfolding job_to_str
job_to_str_short j str granted e = rw e refl
