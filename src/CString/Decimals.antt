-- ===== src/CString/Decimals.antt =====
-- What `sscanf` reads of the numbers and texts that `printf` writes, where they fit their width.
use csc.Base.{
  ℕ, zero, suc, ◌+◌, ◌-◌, ◌*◌, ◌/◌, ◌%◌, ◌≤◌, ◌≡◌, ◌≢◌, refl, ap, subst, sym, ◌∙◌, Bool, true,
  false, ◌&&◌, some, List, [], ◌∷◌, ◌++◌, ◌==◌, leb, ltb, arith, length, All,
}
use csc.Base.Int.{ℤ, pos, negsuc}
use csc.CString.Format.{digits, places, print_unsigned, print_signed, print_text}
use csc.CString.Scan.{
  is_space, skip_space, expect, number, with_sign, signed, as_int, as_unsigned, nonempty,
  scan_signed, scan_unsigned, word, scan_word,
}

-- `n` has at most `w` digits.
abbrev pub Fits : ℕ → ℕ → Type 0
Fits zero n = n ≡ 0
Fits (suc w) n = Fits w (n / 10)

-- `z` takes at most `w` characters, its sign included.
abbrev pub IntFits : ℕ → ℤ → Type 0
IntFits w (pos n) = Fits w n
IntFits w (negsuc n) = Fits (w - 1) (suc n)

pub length-digits : (w n : ℕ) (out : List ℕ) → length (digits w n out) ≡ w + length out
unfolding digits
length-digits zero n out = omega arith
length-digits (suc w) n out = omega (arith, length-digits w (n / 10) ((b'0' + n % 10) ∷ out))

places_fit : (fuel w n : ℕ) → Fits w n → places fuel n ≤ w
unfolding places
places_fit zero w n h = omega arith
places_fit (suc fuel) zero n h = ground arith
places_fit (suc fuel) (suc w) n h = ground (arith, places_fit fuel w (n / 10) h)

pub print_unsigned_fit :
    (w n : ℕ) (out : List ℕ) → Fits w n → print_unsigned w n out ≡ digits w n out
unfolding print_unsigned
print_unsigned_fit w n out h =
    let small : ltb w (places 10 n) ≡ false = ground (arith, places_fit 10 w n h) in rw small

number-digit :
    (k acc d : ℕ) (seen : Bool) (s : List ℕ)
    → d ≤ 9
    → number (suc k) acc seen ((b'0' + d) ∷ s) ≡ number k (acc * 10 + d) true s
unfolding number
number-digit k acc d seen s h =
    let low : (leb b'0' (b'0' + d) && leb (b'0' + d) b'9') ≡ true = ground arith in
    let here : b'0' + d - b'0' ≡ d = omega arith in rw low (rw here refl)

number-digits :
    (w k n : ℕ) (out : List ℕ)
    → Fits (suc w) n
    → number (suc w + k) 0 false (digits (suc w) n out) ≡ number k n true out
unfolding digits
number-digits zero k n out h =
    let low : n % 10 ≡ n = omega arith in
    let width : 1 + k ≡ suc k = omega arith in
    let first : 0 * 10 + n ≡ n = omega arith in
    rw (width, low)
      (number-digit k 0 n false out (omega arith) ∙ ap (λ (a : ℕ). number k a true out) first)
number-digits (suc w) k n out h =
    let width : suc (suc w) + k ≡ suc w + suc k = omega arith in
    let whole : n / 10 * 10 + n % 10 ≡ n = omega arith in
    rw width (
      number-digits w (suc k) (n / 10) ((b'0' + n % 10) ∷ out) h
      ∙ number-digit k (n / 10) (n % 10) true out (omega arith)
      ∙ ap (λ (a : ℕ). number k a true out) whole)

-- The first character of a printed number is a digit.
record StartsLow (s : List ℕ) : Type 0 where
  digit : ℕ
  tail : List ℕ
  whole : s ≡ (b'0' + digit) ∷ tail
  low : digit ≤ 9

digits-StartsLow : (w n : ℕ) (out : List ℕ) → StartsLow (digits (suc w) n out)
unfolding digits
digits-StartsLow zero n out = record { digit = n % 10; tail = out; whole = refl; low = omega arith }
digits-StartsLow (suc w) n out = digits-StartsLow w (n / 10) ((b'0' + n % 10) ∷ out)

skip_space-low : (s : List ℕ) → StartsLow s → skip_space s ≡ s
unfolding skip_space is_space
skip_space-low s h = subst (λ t. skip_space t ≡ t) (sym h.whole) (let small = h.low in ground arith)

signed-low :
    (w : ℕ) (s r : List ℕ) (n : ℕ)
    → StartsLow s
    → number w 0 false s ≡ some (n, r)
    → signed w s ≡ some (false, n, r)
unfolding signed with_sign
signed-low w s r n h e =
    subst (λ t. number w 0 false t ≡ some (n, r) → signed w t ≡ some (false, n, r)) (sym h.whole)
      (λ (f : number w 0 false ((b'0' + h.digit) ∷ h.tail) ≡ some (n, r)).
        let small = h.low in
        let plain : (b'0' + h.digit == b'-') ≡ false = ground arith in
        let bare : (b'0' + h.digit == b'+') ≡ false = ground arith in
        rw (plain, bare) (ap (with_sign false) f))
      e

number-printed :
    (w n : ℕ) (out : List ℕ)
    → Fits (suc w) n
    → number (suc w) 0 false (print_unsigned (suc w) n out) ≡ some (n, out)
unfolding number
number-printed w n out h =
    let width : suc w + 0 ≡ suc w = omega arith in
    rw (print_unsigned_fit (suc w) n out h) (
      ap (λ (k : ℕ). number k 0 false (digits (suc w) n out)) (sym width)
      ∙ number-digits w 0 n out h)

signed-printed :
    (w n : ℕ) (out : List ℕ)
    → Fits (suc w) n
    → signed (suc w) (skip_space (print_unsigned (suc w) n out)) ≡ some (false, n, out)
signed-printed w n out h =
    let low : StartsLow (print_unsigned (suc w) n out) =
      subst StartsLow (sym (print_unsigned_fit (suc w) n out h)) (digits-StartsLow w n out) in
    rw (skip_space-low _ low) (signed-low (suc w) _ out n low (number-printed w n out h))

pub scan_unsigned-print_unsigned :
    (w n : ℕ) (out : List ℕ)
    → Fits (suc w) n
    → scan_unsigned (suc w) (print_unsigned (suc w) n out) ≡ some (n, out)
unfolding scan_unsigned as_unsigned
scan_unsigned-print_unsigned w n out h = ap as_unsigned (signed-printed w n out h)

pub scan_signed-print_signed :
    (w : ℕ) (z : ℤ) (out : List ℕ)
    → IntFits (suc (suc w)) z
    → scan_signed (suc (suc w)) (print_signed (suc (suc w)) z out) ≡ some (z, out)
unfolding scan_signed print_signed signed skip_space is_space with_sign as_int
scan_signed-print_signed w (pos n) out h = ap as_int (signed-printed (suc w) n out h)
scan_signed-print_signed w (negsuc n) out h =
    let width : suc (suc w) - 1 ≡ suc w = omega arith in
    let fit : Fits (suc w) (suc n) = subst (λ k. Fits k (suc n)) width h in
    rw width (ap (λ o. as_int (with_sign true o)) (number-printed w (suc n) out fit))

pub expect-append : (p s : List ℕ) → expect p (p ++ s) ≡ some s
unfolding expect
expect-append [] s = refl
expect-append (c ∷ p) s = ground (arith, expect-append p s)

-- A character that "%s" reads, and that may stand in a string.
pub record IsInk (c : ℕ) : Type 0 where
  pub dark : is_space c ≡ false
  pub some_char : c ≢ 0

skip_space-ink : (s : List ℕ) → All IsInk s → skip_space s ≡ s
unfolding skip_space
skip_space-ink [] h = refl
skip_space-ink (c ∷ s) (here, h) = rw here.dark refl

word-ink : (w : ℕ) (s : List ℕ) → All IsInk s → length s ≡ w → word w s ≡ (s, [])
unfolding word
word-ink zero [] h e = refl
word-ink (suc w) [] h e = refl
word-ink zero (c ∷ s) h e = absurd (omega arith)
word-ink (suc w) (c ∷ s) (here, h) e = rw here.dark (rw (word-ink w s h (omega arith)) refl)

pub scan_word-ink :
    (w : ℕ) (s : List ℕ) → All IsInk s → length s ≡ suc w → scan_word (suc w) s ≡ some s
unfolding scan_word nonempty
scan_word-ink w [] h e = absurd (omega arith)
scan_word-ink w (c ∷ s) h e =
    ap (λ t. nonempty ((word (suc w) t).0)) (skip_space-ink (c ∷ s) h)
    ∙ ap (λ (p : List ℕ × List ℕ). nonempty p.0) (word-ink (suc w) (c ∷ s) h e)

pub print_text_full : (w : ℕ) (s : List ℕ) → length s ≡ w → print_text w s ≡ s
unfolding print_text
print_text_full w s e = let none_left : w - length s ≡ 0 = omega arith in rw none_left refl
