-- ===== src/Job/Label.antt =====
-- The label field: what `job_set` stores is the printed label, padded with '*'.
use csc.Base.{
  ℕ, zero, suc, ◌+◌, ◌-◌, ◌≤◌, ◌≡◌, ◌≢◌, refl, sym, subst, drop, length-drop, ◌∙◌, true, false,
  Option, none, some, List, [], ◌∷◌, ◌++◌, append_assoc, arith, ◌==◌, ltb, length, length-append,
  length-replicate, set, set-append, replicate, All, All-append, Bool-cases, inl, inr,
}
use csc.CString.{snprintf_s, printed}
use csc.CString.Laws.{
  IsFull, strncpy_self, text-IsFull, length-printed, printed-nonzero, snprintf_s-printed,
  strnlen-snprintf_s, printed_of_full,
}
use csc.Job.{pad_loop, pad_label, is_blank, stored_label}

-- The documented label: at most 31 bytes of the text, '*' up to 31, and the terminator.
pub padded : List ℕ → List ℕ
padded s = printed 31 s ++ (replicate (31 - length (printed 31 s)) b'*' ++ (0 ∷ []))

stars-nonzero : (k : ℕ) → All {A = ℕ} (λ c. c ≢ 0) (replicate k b'*')
stars-nonzero zero = tt
stars-nonzero (suc k) = (λ e. omega arith, stars-nonzero k)

pub padded-IsFull : (s : List ℕ) → IsFull 31 (padded s)
unfolding padded
padded-IsFull s = subst (IsFull 31) (append_assoc t stars (0 ∷ [])) (
    text-IsFull (t ++ stars) 31
      (All-append (λ c. c ≢ 0) t stars (printed-nonzero 31 s) (stars-nonzero _))
      (omega (
        arith,
        length-append t stars,
        length-replicate {A = ℕ} (31 - length t) b'*',
        length-printed 31 s,
      )))
  where
    t : List ℕ
    t = printed 31 s

    stars : List ℕ
    stars = replicate (31 - length t) b'*'

-- Behind `pre` the loop writes `k` stars up to the last place, which then takes the terminator.
pad_loop-append :
    (k fuel : ℕ) (pre suf : List ℕ)
    → k ≤ fuel
    → length pre + k ≡ 31
    → length suf ≡ suc k
    → set (pad_loop fuel (pre ++ suf) (length pre)) 31 0 ≡ pre ++ (replicate k b'*' ++ (0 ∷ []))
unfolding pad_loop
pad_loop-append zero zero pre (x ∷ []) h e f =
    let full : 31 ≡ length pre = omega arith in rw full (set-append pre [] x 0)
pad_loop-append zero (suc fuel) pre (x ∷ []) h e f =
    let full : length pre ≡ 31 = omega arith in
    let last : set (pre ++ (x ∷ [])) 31 0 ≡ pre ++ (0 ∷ []) = rw (← full) (set-append pre [] x 0) in
    let done : ltb (length pre) 31 ≡ false = ground arith in rw done last
pad_loop-append (suc k) (suc fuel) pre (x ∷ suf) h e f =
    let more : ltb (length pre) 31 ≡ true = ground arith in
    let moved : pre ++ (b'*' ∷ suf) ≡ (pre ++ (b'*' ∷ [])) ++ suf =
      sym (append_assoc pre (b'*' ∷ []) suf) in
    let size : length pre + 1 ≡ length (pre ++ (b'*' ∷ [])) =
      omega (arith, length-append pre (b'*' ∷ [])) in
    rw more (
      rw (set-append pre suf x b'*') (
        rw moved (
          rw size (
            pad_loop-append k fuel (pre ++ (b'*' ∷ [])) suf (omega arith) (omega arith)
              (omega arith)
            ∙ append_assoc pre (b'*' ∷ []) (replicate k b'*' ++ (0 ∷ []))))))
pad_loop-append (suc k) zero pre suf h e f = absurd (omega arith)
pad_loop-append k fuel pre [] h e f = absurd (omega arith)
pad_loop-append zero fuel pre (x ∷ y ∷ suf) h e f = absurd (omega arith)

-- Whatever the local array holds before, the stored label is the padded one.
pub pad_label-padded :
    (temp label : List ℕ) → length temp ≡ 32 → pad_label temp label ≡ padded label
unfolding pad_label padded
pad_label-padded temp label h = rw (strnlen-snprintf_s 31 temp label h) (
    rw (snprintf_s-printed 31 temp label h) (
      rw (pad_loop-append (31 - length t) 32 t rest (omega arith) (omega (arith, small)) left)
        (strncpy_self 31 (padded label) (padded-IsFull label))))
  where
    t : List ℕ
    t = printed 31 label

    small : length t ≤ 31
    small = length-printed 31 label

    rest : List ℕ
    rest = 0 ∷ drop (suc (length t)) temp

    left : length rest ≡ suc (31 - length t)
    left = omega (arith, small, length-drop (suc (length t)) temp)

-- A label argument as text: NULL is the empty text.
abbrev pub label_text : Option (List ℕ) → List ℕ
label_text none = []
label_text (some s) = s

pad-padded : stored_label none ≡ padded []
unfolding stored_label padded snprintf_s printed
pad-padded = refl

padded-blank : (c : ℕ) (s : List ℕ) → (c == 0) ≡ true → padded (c ∷ s) ≡ padded []
unfolding padded printed
padded-blank c s e = rw e

-- NULL, the empty string and any other label alike are stored as the documented label: the text
-- cut to 31 characters, or padded with '*' to 31.
pub stored_label-padded : (label : Option (List ℕ)) → stored_label label ≡ padded (label_text label)
unfolding stored_label is_blank
stored_label-padded none = pad-padded
stored_label-padded (some []) = pad-padded
stored_label-padded (some (c ∷ s)) = elim (Bool-cases (c == 0)) [
  | inl e ↦ rw e (pad-padded ∙ sym (padded-blank c s e))
  | inr e ↦ rw e (pad_label-padded (replicate 32 0) (c ∷ s) refl)
]

pub stored_label-IsFull : (label : Option (List ℕ)) → IsFull 31 (stored_label label)
stored_label-IsFull label =
    subst (IsFull 31) (sym (stored_label-padded label)) (padded-IsFull (label_text label))

-- Storing a label that already has full length keeps it.
pub padded_self : (s : List ℕ) → IsFull 31 s → padded s ≡ s
unfolding padded
padded_self s h = let (size, text) = printed_of_full 31 s h in rw size text
