-- ===== src/CString/Laws.antt =====
-- Strings that fill an array of `n + 1` bytes: `n` bytes that are not 0, then a 0.
use csc.Base.{
  false, ℕ, zero, suc, ◌≤◌, ◌≡◌, ◌≢◌, ◌↔◌, refl, ap, true, List, [], ◌∷◌, ◌++◌, ◌==◌, arith, length,
  length-append, length-replicate, drop, ◌∙◌, replicate, All, inl, inr, Bool-cases,
}
use csc.CString.{until_nul, printed, same_text, strlen, strnlen, strncpy, strncmp_eq, snprintf_s}

-- Exactly `n` bytes before the terminator of an array of `n + 1`.
pub record IsFull (n : ℕ) (s : List ℕ) : Type 0 where
  pub size : length s ≡ suc n
  pub text : strnlen s (suc n) ≡ n

IsFull-tail : (n c : ℕ) (s : List ℕ) → IsFull (suc n) (c ∷ s) → (c ≢ 0) × IsFull n s
unfolding strnlen
IsFull-tail n c s h = ground arith

-- `strncpy` copies such an array as it is.
pub strncpy_self : (n : ℕ) (s : List ℕ) → IsFull n s → strncpy s (suc n) ≡ s
unfolding strncpy strnlen
strncpy_self n [] h = absurd (omega (arith, h.size))
strncpy_self zero (c ∷ []) h = ground arith
strncpy_self zero (c ∷ d ∷ s) h = absurd (omega (arith, h.size))
strncpy_self (suc n) (c ∷ s) h =
    let (ne, t) = IsFull-tail n c s h in ground (arith, strncpy_self n s t)

pub length-strncpy : (s : List ℕ) (n : ℕ) → length (strncpy s n) ≡ n
unfolding strncpy
length-strncpy s zero = refl
length-strncpy [] (suc n) = ap suc (length-strncpy [] n)
length-strncpy (c ∷ s) (suc n) = ground (arith, length-strncpy s n, length-replicate {A = ℕ} n 0)

strnlen-zeros : (n : ℕ) → strnlen (replicate n 0) n ≡ 0
unfolding strnlen
strnlen-zeros zero = refl
strnlen-zeros (suc n) = refl

-- The copy has as many bytes before its terminator as the source.
pub strnlen-strncpy : (s : List ℕ) (n : ℕ) → strnlen (strncpy s n) n ≡ strnlen s n
unfolding strncpy strnlen
strnlen-strncpy s zero = refl
strnlen-strncpy [] (suc n) = refl
strnlen-strncpy (c ∷ s) (suc n) = ground (arith, strnlen-strncpy s n)

-- The copy of a string of exactly `n` bytes fills the array.
pub strncpy-IsFull : (n : ℕ) (s : List ℕ) → strnlen s (suc n) ≡ n → IsFull n (strncpy s (suc n))
strncpy-IsFull n s h = record {
  size = length-strncpy s (suc n);
  text = strnlen-strncpy s (suc n) ∙ h;
}

-- On full arrays string comparison is equality.
pub strncmp_eq_iff :
    (n : ℕ) (a b : List ℕ) → IsFull n a → IsFull n b → (strncmp_eq a b (suc n) ≡ true) ↔ (a ≡ b)
unfolding strncmp_eq strnlen
strncmp_eq_iff n [] b h k = absurd (omega (arith, h.size))
strncmp_eq_iff n (c ∷ a) [] h k = absurd (omega (arith, k.size))
strncmp_eq_iff zero (c ∷ []) (d ∷ []) h k = ground arith
strncmp_eq_iff zero (c ∷ x ∷ a) b h k = absurd (omega (arith, h.size))
strncmp_eq_iff zero (c ∷ []) (d ∷ y ∷ b) h k = absurd (omega (arith, k.size))
strncmp_eq_iff (suc n) (c ∷ a) (d ∷ b) h k =
    let (ne, t) = IsFull-tail n c a h in
    let (me, u) = IsFull-tail n d b k in
    let (to, from) = strncmp_eq_iff n a b t u in
    (λ e. ground (arith, to), λ e. ground (arith, from))

-- Text with no 0 in it, and its terminator, fill an array.
strnlen-text :
    (s r : List ℕ) (n : ℕ)
    → All (λ c. c ≢ 0) s
    → length s ≤ n
    → strnlen (s ++ (0 ∷ r)) (suc n) ≡ length s
unfolding strnlen
strnlen-text [] r n h k = refl
strnlen-text (c ∷ s) r zero h k = absurd (omega arith)
strnlen-text (c ∷ s) r (suc n) (ne, h) k = ground (arith, strnlen-text s r n h (omega arith))

pub text-IsFull :
    (s : List ℕ) (n : ℕ) → All (λ c. c ≢ 0) s → length s ≡ n → IsFull n (s ++ (0 ∷ []))
text-IsFull s n h k = record {
  size = omega (arith, length-append s (0 ∷ []));
  text = strnlen-text s [] n h (omega arith) ∙ k;
}

pub length-printed : (n : ℕ) (s : List ℕ) → length (printed n s) ≤ n
unfolding printed
length-printed zero s = omega arith
length-printed (suc n) [] = omega arith
length-printed (suc n) (c ∷ s) = ground (arith, length-printed n s)

pub printed-nonzero : (n : ℕ) (s : List ℕ) → All (λ c. c ≢ 0) (printed n s)
unfolding printed
printed-nonzero zero s = tt
printed-nonzero (suc n) [] = tt
printed-nonzero (suc n) (c ∷ s) = elim (Bool-cases (c == 0)) [
  | inl e ↦ rw e tt
  | inr e ↦ rw e (λ z. ground arith, printed-nonzero n s)
]

-- The text and its terminator, in an array with room for them.
pub snprintf_s_fits :
    (n : ℕ) (buf s : List ℕ)
    → suc n ≤ length buf
    → snprintf_s buf (suc n) s ≡ printed n s ++ (0 ∷ drop (suc (length (printed n s))) buf)
unfolding snprintf_s printed
snprintf_s_fits n [] s h = absurd (omega (arith, h))
snprintf_s_fits zero (b ∷ buf) s h = refl
snprintf_s_fits (suc n) (b ∷ buf) [] h = refl
snprintf_s_fits (suc n) (b ∷ buf) (c ∷ s) h = elim (Bool-cases (c == 0)) [
  | inl e ↦ rw e
  | inr e ↦ rw e (ap (◌∷◌ c) (snprintf_s_fits n buf s (omega arith)))
]

pub snprintf_s-printed :
    (n : ℕ) (buf s : List ℕ)
    → length buf ≡ suc n
    → snprintf_s buf (suc n) s ≡ printed n s ++ (0 ∷ drop (suc (length (printed n s))) buf)
snprintf_s-printed n buf s h = snprintf_s_fits n buf s (omega (arith, h))

pub strnlen-snprintf_s :
    (n : ℕ) (buf s : List ℕ)
    → length buf ≡ suc n
    → strnlen (snprintf_s buf (suc n) s) (suc n) ≡ length (printed n s)
strnlen-snprintf_s n buf s h =
    rw (snprintf_s-printed n buf s h)
      (strnlen-text (printed n s) _ n (printed-nonzero n s) (length-printed n s))

-- A full array is its text and the terminator.
pub printed_of_full :
    (n : ℕ) (s : List ℕ) → IsFull n s → (length (printed n s) ≡ n) × (printed n s ++ (0 ∷ []) ≡ s)
unfolding printed strnlen
printed_of_full n [] h = absurd (omega (arith, h.size))
printed_of_full zero (c ∷ []) h = (refl, ground arith)
printed_of_full zero (c ∷ d ∷ s) h = absurd (omega (arith, h.size))
printed_of_full (suc n) (c ∷ s) h =
    let (ne, t) = IsFull-tail n c s h in
    let (size, text) = printed_of_full n s t in
    elim (Bool-cases (c == 0)) [
      | inl e ↦ absurd (ne (ground arith))
      | inr e ↦ rw e (ap suc size, ap (◌∷◌ c) text)
    ]

pub same_text_iff : (a b : List ℕ) → (same_text a b ≡ true) ↔ (a ≡ b)
unfolding same_text
same_text_iff [] [] = (λ e. refl, λ e. refl)
same_text_iff [] (d ∷ b) = (λ e. cc, λ e. cc)
same_text_iff (c ∷ a) [] = (λ e. cc, λ e. cc)
same_text_iff (c ∷ a) (d ∷ b) =
    let (to, from) = same_text_iff a b in (λ e. ground (arith, to), λ e. ground (arith, from))

pub until_nul-text : (s r : List ℕ) → All (λ c. c ≢ 0) s → until_nul (s ++ (0 ∷ r)) ≡ s
until_nul-text [] r h = refl
until_nul-text (c ∷ s) r (ne, h) =
    let shown : (c == 0) ≡ false = ground arith in rw shown (ap (◌∷◌ c) (until_nul-text s r h))

pub strlen-text : (s r : List ℕ) → All (λ c. c ≢ 0) s → strlen (s ++ (0 ∷ r)) ≡ length s
unfolding strlen
strlen-text [] r h = refl
strlen-text (c ∷ s) r (ne, h) = ground (arith, strlen-text s r h)

-- A text that is long enough fills the array.
pub length-printed_long :
    (n : ℕ) (s : List ℕ) → All (λ c. c ≢ 0) s → n ≤ length s → length (printed n s) ≡ n
unfolding printed
length-printed_long zero s h k = refl
length-printed_long (suc n) [] h k = absurd (omega arith)
length-printed_long (suc n) (c ∷ s) (ne, h) k =
    let shown : (c == 0) ≡ false = ground arith in
    rw shown (ap suc (length-printed_long n s h (omega arith)))

pub printed_whole : (n : ℕ) (s : List ℕ) → All (λ c. c ≢ 0) s → length s ≡ n → printed n s ≡ s
unfolding printed
printed_whole zero [] h k = refl
printed_whole (suc n) [] h k = refl
printed_whole zero (c ∷ s) h k = absurd (omega arith)
printed_whole (suc n) (c ∷ s) (ne, h) k =
    let shown : (c == 0) ≡ false = ground arith in
    rw shown (ap (◌∷◌ c) (printed_whole n s h (omega arith)))

pub strncpy-text :
    (n : ℕ) (s : List ℕ) → All (λ c. c ≢ 0) s → length s ≡ n → strncpy s (suc n) ≡ s ++ (0 ∷ [])
unfolding strncpy
strncpy-text zero [] h k = refl
strncpy-text (suc n) [] h k = absurd (omega arith)
strncpy-text zero (c ∷ s) h k = absurd (omega arith)
strncpy-text (suc n) (c ∷ s) (ne, h) k =
    let shown : (c == 0) ≡ false = ground arith in
    rw shown (ap (◌∷◌ c) (strncpy-text n s h (omega arith)))

pub strnlen-strlen : (n : ℕ) (s : List ℕ) → length s ≤ n → strnlen s n ≡ strlen s
unfolding strnlen strlen
strnlen-strlen zero [] h = refl
strnlen-strlen (suc n) [] h = refl
strnlen-strlen zero (c ∷ s) h = absurd (omega arith)
strnlen-strlen (suc n) (c ∷ s) h = ground (arith, strnlen-strlen n s (omega arith))
