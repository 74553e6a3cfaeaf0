-- ===== src/CString.antt =====
-- The functions of <string.h> and <stdio.h> that the sources call on character arrays. A string
-- is a list of bytes; it ends at its first 0, and the end of the list stands for a 0.
pub mod Laws
pub mod Format
pub mod Scan
pub mod Decimals
pub mod Printed
use Prim.Native.Char.{code}
use Prim.Native.String
use Prim.Native.String.{String}
use csc.Base.{
  ℕ, zero, suc, ◌+◌, Bool, true, false, ◌&&◌, List, [], ◌∷◌, ◌==◌, if◌then◌else◌, replicate, take,
}

-- The bytes of a text literal.
abbrev pub codes : String → List ℕ
codes String.[] = []
codes (String.◌∷◌ c s) = code c ∷ codes s

-- The bytes before the first 0.
abbrev pub until_nul : List ℕ → List ℕ
until_nul [] = []
until_nul (c ∷ s) = if c == 0 then [] else c ∷ until_nul s

unfoldable pub strnlen : List ℕ → ℕ → ℕ
strnlen s zero = 0
strnlen [] (suc n) = 0
strnlen (c ∷ s) (suc n) = if c == 0 then 0 else suc (strnlen s n)

unfoldable pub strlen : List ℕ → ℕ
strlen [] = 0
strlen (c ∷ s) = if c == 0 then 0 else suc (strlen s)

-- What `strncpy (dst, src, n)` leaves in the `n` bytes at `dst`: the string, then zeros.
unfoldable pub strncpy : List ℕ → ℕ → List ℕ
strncpy s zero = []
strncpy [] (suc n) = 0 ∷ strncpy [] n
strncpy (c ∷ s) (suc n) = if c == 0 then replicate (suc n) 0 else c ∷ strncpy s n

-- Whether `strncmp (a, b, n)` is 0.
unfoldable pub strncmp_eq : List ℕ → List ℕ → ℕ → Bool
strncmp_eq a b zero = true
strncmp_eq [] [] (suc n) = true
strncmp_eq [] (d ∷ b) (suc n) = d == 0
strncmp_eq (c ∷ a) [] (suc n) = c == 0
strncmp_eq (c ∷ a) (d ∷ b) (suc n) = c == d && (if c == 0 then true else strncmp_eq a b n)

-- `snprintf (buf, n, "%s", s)`: at most `n - 1` bytes of `s` and a 0, over what `buf` held.
unfoldable pub snprintf_s : List ℕ → ℕ → List ℕ → List ℕ
snprintf_s buf zero s = buf
snprintf_s [] (suc n) s = []
snprintf_s (b ∷ buf) (suc zero) s = 0 ∷ buf
snprintf_s (b ∷ buf) (suc (suc n)) [] = 0 ∷ buf
snprintf_s (b ∷ buf) (suc (suc n)) (c ∷ s) =
    if c == 0 then 0 ∷ buf else c ∷ snprintf_s buf (suc n) s

-- What "%.ns" prints of a string: its first `n` bytes. `snprintf` into `n + 1` bytes keeps as many.
unfoldable pub printed : ℕ → List ℕ → List ℕ
printed n s = take n (until_nul s)

-- `strcmp (a, b) == 0`, for texts with no 0 in them
unfoldable pub same_text : List ℕ → List ℕ → Bool
same_text [] [] = true
same_text (c ∷ a) (d ∷ b) = c == d && same_text a b
same_text _ _ = false
