-- ===== src/CString/Scan.antt =====
-- What `sscanf` reads for the conversions that the sources use: "%wd", "%wu", "%ws", and literal
-- characters. `none` is a directive that fails.
use csc.Base.{
  ℕ, zero, suc, ◌+◌, ◌-◌, ◌*◌, ◌%◌, ◌^◌, Bool, true, false, ◌&&◌, ◌||◌, Option, none, some, List,
  [], ◌∷◌, ◌==◌, leb, if◌then◌else◌,
}
use csc.Base.Int.{ℤ, pos, negsuc}

-- `isspace` of the C locale
unfoldable pub is_space : ℕ → Bool
is_space c = c == b' ' || (leb 9 c && leb c 13)

unfoldable pub skip_space : List ℕ → List ℕ
skip_space [] = []
skip_space (c ∷ s) = if is_space c then skip_space s else c ∷ s

-- Literal characters.
unfoldable pub expect : List ℕ → List ℕ → Option (List ℕ)
expect [] s = some s
expect (c ∷ p) [] = none
expect (c ∷ p) (d ∷ s) = if c == d then expect p s else none

-- At most `w` more digits, behind a number `acc` of which a digit has been `seen` or not.
unfoldable pub number : ℕ → ℕ → Bool → List ℕ → Option (ℕ × List ℕ)
number zero acc seen s = if seen then some (acc, s) else none
number (suc w) acc seen [] = if seen then some (acc, []) else none
number (suc w) acc seen (c ∷ s) =
    let rest = number w (acc * 10 + (c - b'0')) true s in
    if leb b'0' c && leb c b'9' then rest else if seen then some (acc, c ∷ s) else none

unfoldable pub with_sign : Bool → Option (ℕ × List ℕ) → Option (Bool × ℕ × List ℕ)
with_sign minus none = none
with_sign minus (some (n, s)) = some (minus, n, s)

-- A sign, which counts as one of the `w` characters, and a number.
unfoldable pub signed : ℕ → List ℕ → Option (Bool × ℕ × List ℕ)
signed w [] = none
signed w (c ∷ s) =
    with_sign (c == b'-')
      (if c == b'-' || c == b'+' then number (w - 1) 0 false s else number w 0 false (c ∷ s))

unfoldable pub as_int : Option (Bool × ℕ × List ℕ) → Option (ℤ × List ℕ)
as_int none = none
as_int (some (false, n, s)) = some (pos n, s)
as_int (some (true, zero, s)) = some (pos 0, s)
as_int (some (true, suc n, s)) = some (negsuc n, s)

-- A sign is accepted, and negates modulo 2 ^ 32.
unfoldable pub as_unsigned : Option (Bool × ℕ × List ℕ) → Option (ℕ × List ℕ)
as_unsigned none = none
as_unsigned (some (minus, n, s)) = some (if minus then (2 ^ 32 - n) % 2 ^ 32 else n, s)

-- "%wd", for a `w` at which no `int` overflows; white space is passed over.
unfoldable pub scan_signed : ℕ → List ℕ → Option (ℤ × List ℕ)
scan_signed w s = as_int (signed w (skip_space s))

-- "%wu"
unfoldable pub scan_unsigned : ℕ → List ℕ → Option (ℕ × List ℕ)
scan_unsigned w s = as_unsigned (signed w (skip_space s))

-- At most `w` characters that are not white space, and what follows.
unfoldable pub word : ℕ → List ℕ → List ℕ × List ℕ
word zero s = ([], s)
word (suc w) [] = ([], [])
word (suc w) (c ∷ s) = let (t, rest) = word w s in if is_space c then ([], c ∷ s) else (c ∷ t, rest)

unfoldable pub nonempty : List ℕ → Option (List ℕ)
nonempty [] = none
nonempty (c ∷ s) = some (c ∷ s)

-- "%ws"
unfoldable pub scan_word : ℕ → List ℕ → Option (List ℕ)
scan_word w s = nonempty ((word w (skip_space s)).0)
