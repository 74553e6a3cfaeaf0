-- ===== src/CString/Printed.antt =====
-- The characters that `printf` writes: what they are, and at least the width that is asked for.
use csc.Base.{ℕ, zero, suc, ◌+◌, ◌-◌, ◌/◌, ◌%◌, ◌≤◌, ◌≡◌, List, ◌∷◌, arith, length, All}
use csc.Base.Int.{ℤ, pos, negsuc}
use csc.CString.Format.{digits, places, print_unsigned, print_signed}
use csc.CString.Decimals.{Fits, IntFits, length-digits, print_unsigned_fit}

-- What holds of the digits and of '-' holds of a printed number.
module _ (P : ℕ → Type 0) (digit : (d : ℕ) → d ≤ 9 → P (b'0' + d)) (dash : P b'-') where
  All-digits : (w n : ℕ) (out : List ℕ) → All P out → All P (digits w n out)
  unfolding digits
  All-digits zero n out h = h
  All-digits (suc w) n out h =
      All-digits w (n / 10) ((b'0' + n % 10) ∷ out) (digit (n % 10) (omega arith), h)

  pub All-print_unsigned : (w n : ℕ) (out : List ℕ) → All P out → All P (print_unsigned w n out)
  unfolding print_unsigned
  All-print_unsigned w n out h = All-digits _ n out h

  pub All-print_signed : (w : ℕ) (z : ℤ) (out : List ℕ) → All P out → All P (print_signed w z out)
  unfolding print_signed
  All-print_signed w (pos n) out h = All-print_unsigned w n out h
  All-print_signed w (negsuc n) out h = (dash, All-print_unsigned (w - 1) (suc n) out h)

pub length-print_unsigned :
    (w n : ℕ) (out : List ℕ) → w + length out ≤ length (print_unsigned w n out)
unfolding print_unsigned
length-print_unsigned w n out =
    ground (arith, length-digits w n out, length-digits (places 10 n) n out)

pub length-print_signed :
    (w : ℕ) (z : ℤ) (out : List ℕ) → w + length out ≤ length (print_signed w z out)
unfolding print_signed
length-print_signed w (pos n) out = length-print_unsigned w n out
length-print_signed w (negsuc n) out = omega (arith, length-print_unsigned (w - 1) (suc n) out)

pub length-print_unsigned_fit :
    (w n : ℕ) (out : List ℕ) → Fits w n → length (print_unsigned w n out) ≡ w + length out
length-print_unsigned_fit w n out h = rw (print_unsigned_fit w n out h) (length-digits w n out)

pub length-print_signed_fit :
    (w : ℕ) (z : ℤ) (out : List ℕ)
    → IntFits (suc w) z
    → length (print_signed (suc w) z out) ≡ suc w + length out
unfolding print_signed
length-print_signed_fit w (pos n) out h = length-print_unsigned_fit (suc w) n out h
length-print_signed_fit w (negsuc n) out h =
    omega (arith, length-print_unsigned_fit (suc w - 1) (suc n) out h)
