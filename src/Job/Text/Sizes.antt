-- ===== src/Job/Text/Sizes.antt =====
-- How much job_to_str writes.
use csc.Base.{
  ℕ, zero, suc, ◌≤◌, ◌≡◌, ◌≢◌, ◌∙◌, refl, Bool, false, Option, none, some, List, [], ◌∷◌, ◌++◌,
  ◌==◌, ◌⊎◌, inl, inr, arith, length, length-append, drop, length-drop, Bool-cases,
}
use csc.CString.{strlen, printed}
use csc.CString.Laws.{printed-nonzero, strlen-text, length-printed_long}
use csc.CString.{until_nul}
use csc.Job.{Job}
use csc.Job.Copy.{HasLabel}
use csc.Job.Text.{job_str_size, print_job, job_to_str}
use csc.Job.Text.Print.{
  IsLabel, until_nul-IsLabel, job_text-nonzero, length-job_text, text_of, print_job_fits, room,
  job_to_str-cases, full_label, job_to_str_short,
}

drop-text :
    (n : ℕ) (t buffer : List ℕ)
    → length t ≡ n
    → drop (suc n) (t ++ (0 ∷ drop (suc (length t)) buffer)) ≡ drop (suc n) buffer
drop-text zero [] buffer h = refl
drop-text (suc n) [] buffer h = absurd (omega arith)
drop-text zero (c ∷ t) buffer h = absurd (omega arith)
drop-text (suc n) (c ∷ t) [] h = drop-text n t [] (omega arith)
drop-text (suc n) (c ∷ t) (b ∷ buffer) h = drop-text n t buffer (omega arith)

-- What the 68 characters and their terminator leave of a buffer with room for them.
pub print_job-sizes :
    (j : Job) (buffer : List ℕ)
    → HasLabel j
    → job_str_size ≤ length buffer
    → (strlen (print_job j buffer) ≡ 68)
      × (length (print_job j buffer) ≡ length buffer)
      × (drop job_str_size (print_job j buffer) ≡ drop job_str_size buffer)
print_job-sizes j buffer h k =
    let label : IsLabel (until_nul j.label) = until_nul-IsLabel j h in
    let t : List ℕ = printed 68 (text_of j) in
    let size : length t ≡ 68 =
      length-printed_long 68 (text_of j) (job_text-nonzero j.pid j.id j.priority _ label)
        (length-job_text j.pid j.id j.priority _ label) in
    rw (print_job_fits j buffer k) (
      strlen-text t _ (printed-nonzero 68 (text_of j)) ∙ size,
      omega (
        arith,
        length-append t (0 ∷ drop (suc (length t)) buffer),
        length-drop (suc (length t)) buffer,
      ),
      drop-text 68 t buffer size,
    )

-- For any job, with a label in an array of 32 bytes, and a `str` with room for 69 bytes or NULL:
-- `job_to_str` returns NULL if the label is not of 31 characters, or if `str` is NULL and there
-- is no memory; otherwise, whatever the numbers of the job are, it leaves a string of exactly 68
-- characters in `str` or in new memory, and the bytes behind the first 69 as they were.
pub job_to_str-sizes :
    (j : Job) (str : Option (List ℕ)) (granted : Bool)
    → length j.label ≡ 32
    → job_str_size ≤ length (room str)
    → ((strlen j.label ≢ 31) × (job_to_str (some j) str granted ≡ none))
      ⊎ ((str ≡ none) × (granted ≡ false) × (job_to_str (some j) str granted ≡ none))
      ⊎ ((b : List ℕ) × (job_to_str (some j) str granted ≡ some b)
          × (strlen b ≡ 68)
          × (length b ≡ length (room str))
          × (drop job_str_size b ≡ drop job_str_size (room str)))
job_to_str-sizes j str granted array h = elim (Bool-cases (strlen j.label == 31)) [
  | inr short ↦ inl (λ e. ground arith, job_to_str_short j str granted short)
  | inl long ↦
      let label : HasLabel j = full_label j array long in
      elim (job_to_str-cases j str granted label) [
        | inl missing ↦ inr (inl missing)
        | inr e ↦
            let (full, size, rest) = print_job-sizes j (room str) label h in
            inr (inr (print_job j (room str), e, full, size, rest))
      ]
]
