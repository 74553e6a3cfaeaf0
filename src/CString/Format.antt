-- ===== src/CString/Format.antt =====
-- What `printf` writes for the conversions that the sources use: "%0wu", "%0wd" and "%ws". Each
-- function puts its characters before `out`.
use csc.Base.{
  ℕ, zero, suc, ◌+◌, ◌-◌, ◌/◌, ◌%◌, List, ◌∷◌, ◌++◌, ◌==◌, ltb, if◌then◌else◌, length, replicate,
}
use csc.Base.Int.{ℤ, pos, negsuc}

-- The last `w` decimal digits of `n`.
unfoldable pub digits : ℕ → ℕ → List ℕ → List ℕ
digits zero n out = out
digits (suc w) n out = digits w (n / 10) ((b'0' + n % 10) ∷ out)

-- How many digits `n` has, without leading zeros; at most `fuel`.
unfoldable pub places : ℕ → ℕ → ℕ
places zero n = 0
places (suc fuel) n = if n == 0 then 0 else suc (places fuel (n / 10))

-- "%0wu". A number of 32 bits has at most 10 digits.
unfoldable pub print_unsigned : ℕ → ℕ → List ℕ → List ℕ
print_unsigned w n out = digits (if ltb w (places 10 n) then places 10 n else w) n out

-- "%0wd": the sign is one of the `w` characters.
unfoldable pub print_signed : ℕ → ℤ → List ℕ → List ℕ
print_signed w (pos n) out = print_unsigned w n out
print_signed w (negsuc n) out = b'-' ∷ print_unsigned (w - 1) (suc n) out

-- "%ws": spaces before a text of fewer than `w` characters.
unfoldable pub print_text : ℕ → List ℕ → List ℕ
print_text w s = replicate (w - length s) b' ' ++ s
