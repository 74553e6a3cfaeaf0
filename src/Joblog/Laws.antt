-- ===== src/Joblog/Laws.antt =====
-- What a log holds, and the entries in it.
use csc.Base.{
  ℕ, zero, suc, ◌+◌, ◌*◌, ◌≡◌, ◌≢◌, refl, sym, subst, ap, ◌∙◌, true, false, Option, none, some,
  List, [], ◌∷◌, ◌++◌, append_assoc, append-nil, ◌==◌, arith, length, length-append, drop,
  drop-append, All, Bool-cases, inl, inr,
}
use csc.CString.{same_text}
use csc.CString.Laws.{same_text_iff}
use csc.Job.{Job}
use csc.Job.Text.Print.{text_of}
use csc.Job.Text.RoundTrip.{IsPlain, length-text_of}
use csc.Joblog.System.{Disk, directory, store, contents, line}

-- A line of the log: the text of a job and a new line.
abbrev pub log_entry : Job → List ℕ
log_entry j = text_of j ++ (10 ∷ [])

abbrev pub log_text : List Job → List ℕ
log_text [] = []
log_text (j ∷ js) = log_entry j ++ log_text js

-- The log under a name has the entries of these jobs, the oldest first; without a file there is
-- none.
pub record Logged (s : Disk) (name : List ℕ) (jobs : List Job) : Type 0 where
  pub place : s.out ≡ directory
  pub text : contents (s.files name) ≡ log_text jobs
  pub plain : All IsPlain jobs

abbrev pub lookup : List Job → ℕ → Option Job
lookup [] k = none
lookup (j ∷ js) zero = some j
lookup (j ∷ js) (suc k) = lookup js k

pub length-log_entry : (j : Job) → IsPlain j → length (log_entry j) ≡ 69
length-log_entry j p = omega (arith, length-append (text_of j) (10 ∷ []), length-text_of j p)

pub log_text-append :
    (js : List Job) (j : Job) → log_text (js ++ (j ∷ [])) ≡ log_text js ++ log_entry j
log_text-append [] j = append-nil (log_entry j)
log_text-append (x ∷ js) j =
    ap (◌++◌ (log_entry x)) (log_text-append js j)
    ∙ sym (append_assoc (log_entry x) (log_text js) (log_entry j))

drop_add : {A : Type 0} (a b n : ℕ) (xs : List A) → n ≡ a + b → drop n xs ≡ drop b (drop a xs)
drop_add zero b n xs e = ap (λ (k : ℕ). drop k xs) (omega arith)
drop_add (suc a) b zero xs e = absurd (omega arith)
drop_add (suc a) zero (suc n) [] e = refl
drop_add (suc a) (suc b) (suc n) [] e = refl
drop_add (suc a) b (suc n) (x ∷ xs) e = drop_add a b n xs (omega arith)

drop_nil : {A : Type 0} (n : ℕ) → drop {A = A} n [] ≡ []
drop_nil zero = refl
drop_nil (suc n) = refl

-- What stands behind the first `k` entries.
abbrev pub Rest : List Job → ℕ → List ℕ → Type 0
Rest [] k t = t ≡ []
Rest (j ∷ js) zero t = t ≡ log_entry j ++ log_text js
Rest (j ∷ js) (suc k) t = Rest js k t

pub drop-log_text :
    (js : List Job) (k : ℕ) → All IsPlain js → Rest js k (drop (k * 69) (log_text js))
drop-log_text [] k h = drop_nil (k * 69)
drop-log_text (j ∷ js) zero h = refl
drop-log_text (j ∷ js) (suc k) (p, h) =
    let size : (suc k) * 69 ≡ 69 + k * 69 = omega arith in
    let over : drop 69 (log_entry j ++ log_text js) ≡ log_text js =
      ap (λ (n : ℕ). drop n (log_entry j ++ log_text js)) (sym (length-log_entry j p))
      ∙ drop-append (log_entry j) (log_text js) in
    subst (Rest js k)
      (sym (
        drop_add 69 (k * 69) (suc k * 69) (log_entry j ++ log_text js) size
        ∙ ap (drop (k * 69)) over))
      (drop-log_text js k h)

-- `fgets` stops before a new line that it has no room for.
pub line-text : (n : ℕ) (s r : List ℕ) → All (λ c. c ≢ 10) s → length s ≡ n → line n (s ++ r) ≡ s
unfolding line
line-text zero [] r h e = refl
line-text (suc n) [] r h e = absurd (omega arith)
line-text zero (c ∷ s) r h e = absurd (omega arith)
line-text (suc n) (c ∷ s) r (ne, h) e =
    let other : (c == 10) ≡ false = ground arith in
    rw other (ap (◌∷◌ c) (line-text n s r h (omega arith)))

pub store_here :
    (f : List ℕ → Option (List ℕ)) (n : List ℕ) (v : Option (List ℕ)) → store f n v n ≡ v
store_here f n v = let same : same_text n n ≡ true = (same_text_iff n n).1 refl in rw same refl

pub store_elsewhere :
    (f : List ℕ → Option (List ℕ)) (n m : List ℕ) (v : Option (List ℕ))
    → m ≢ n
    → store f n v m ≡ f m
store_elsewhere f n m v d = elim (Bool-cases (same_text n m)) [
  | inl e ↦ absurd (d (sym ((same_text_iff n m).0 e)))
  | inr e ↦ rw e refl
]
