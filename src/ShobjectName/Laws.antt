-- ===== src/ShobjectName/Laws.antt =====
-- Names fit their buffer whole, and different labels give different names.
use csc.Base.{
  ℕ, zero, suc, ◌≤◌, ◌≡◌, ◌≢◌, refl, sym, ap, ◌∙◌, Bool, false, Option, some, List, [], ◌∷◌, ◌++◌,
  append_assoc, arith, length, length-append, All, All-append, ◌==◌, drop, drop-append,
}
use csc.CString.{codes, snprintf_s, printed}
use csc.CString.Laws.{length-printed, printed-nonzero, snprintf_s-printed}
use csc.ShobjectName.{label_or_none, user_or_anon, shobj_name, shobject_name}

-- A text with no 0 and at most `n` bytes is printed whole.
pub printed_of_short : (n : ℕ) (s : List ℕ) → All (λ c. c ≢ 0) s → length s ≤ n → printed n s ≡ s
unfolding printed
printed_of_short zero [] h k = refl
printed_of_short (suc n) [] h k = refl
printed_of_short zero (c ∷ s) h k = absurd (omega arith)
printed_of_short (suc n) (c ∷ s) (ne, h) k =
    let shown : (c == 0) ≡ false = ground arith in
    rw shown (ap (◌∷◌ c) (printed_of_short n s h (omega arith)))

pub shobj_name-nonzero : (user label : List ℕ) → All (λ c. c ≢ 0) (shobj_name user label)
unfolding shobj_name
shobj_name-nonzero user label =
    All-append Shown (codes "/csc2035.") _ slash
      (All-append Shown (printed 9 user) _ (printed-nonzero 9 user) (dot, printed-nonzero 12 label))
  where
    Shown : ℕ → Type 0
    Shown c = c ≢ 0

    slash : All Shown (codes "/csc2035.")
    slash = omega arith

    dot : Shown b'.'
    dot = omega arith

length-shobj_name : (user label : List ℕ) → length (shobj_name user label) ≤ 31
unfolding shobj_name
length-shobj_name user label = omega (
  arith,
  length-append (printed 9 user) (codes "." ++ printed 12 label),
  length-printed 9 user,
  length-printed 12 label,
)

-- For every user and label the generated name has at most 31 bytes, and `shobject_name` writes it
-- whole, with its terminator, at the start of a buffer of 32 bytes, and leaves the rest of the
-- buffer as it is.
pub shobject_name-whole :
    (user label : Option (List ℕ)) (buf : List ℕ) (granted : Bool)
    → length buf ≡ 32
    → let name = shobj_name (user_or_anon user) (label_or_none label) in
      (length name ≤ 31)
      × (shobject_name user label (some buf) granted
          ≡ some (name ++ (0 ∷ drop (suc (length name)) buf)))
unfolding shobject_name
shobject_name-whole user label buf granted h = (short, ap some written)
  where
    name : List ℕ
    name = shobj_name (user_or_anon user) (label_or_none label)

    short : length name ≤ 31
    short = length-shobj_name (user_or_anon user) (label_or_none label)

    whole : printed 31 name ≡ name
    whole =
        printed_of_short 31 name (shobj_name-nonzero (user_or_anon user) (label_or_none label))
          short

    written : snprintf_s buf 32 name ≡ name ++ (0 ∷ drop (suc (length name)) buf)
    written =
        snprintf_s-printed 31 buf name h ∙ ap (λ n. n ++ (0 ∷ drop (suc (length n)) buf)) whole

-- For one user, labels of at most 12 bytes give the same name only if they are the same.
pub shobj_name_injective :
    (user a b : List ℕ)
    → All (λ c. c ≢ 0) a
    → length a ≤ 12
    → All (λ c. c ≢ 0) b
    → length b ≤ 12
    → shobj_name user a ≡ shobj_name user b
    → a ≡ b
unfolding shobj_name
shobj_name_injective user a b ha sa hb sb e =
    sym (printed_of_short 12 a ha sa)
    ∙ sym (drop-append front (printed 12 a))
    ∙ ap (drop (length front)) (sym (split a) ∙ e ∙ split b)
    ∙ drop-append front (printed 12 b)
    ∙ printed_of_short 12 b hb sb
  where
    front : List ℕ
    front = codes "/csc2035." ++ (printed 9 user ++ codes ".")

    split : (l : List ℕ) → shobj_name user l ≡ front ++ printed 12 l
    split l =
        ap (λ t. codes "/csc2035." ++ t)
          (sym (append_assoc (printed 9 user) (codes ".") (printed 12 l)))
